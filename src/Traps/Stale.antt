-- ===== src/Traps/Stale.antt =====
-- Where a jump of labs/lab_05_segmentation_traps.c goes to a function that has returned.
use linux_page_cache_lab.Base.{
  ℕ, ◌≡◌, ◌≢◌, refl, arith, false, none, some, ◌==◌, inl, inr, Bool-cases, Option-cases,
}
use linux_page_cache_lab.Traps.{Fault, State, start, Flow, returns, undefined, then_call}
use linux_page_cache_lab.Traps.Segv.{
  null_read, guard_memset, guard_read, protect_memset, Kernel, demo_null_deref, demo_guard_page,
  demo_write_protect, demo_bus_error_sim, main,
}

-- The jump buffer is filled, but not by the third function.
abbrev Stale : Flow → Type 0
Stale (returns s) = (set_by : ℕ) × (s.jump ≡ some set_by) × (set_by ≢ 3)
Stale (undefined s) = ⊥

null-Stale : (k : Kernel) (s : State) → Stale (demo_null_deref k s)
unfolding demo_null_deref
null-Stale k s = elim (Option-cases (k.access null_read)) [
  | inl e ↦ rw e (1, refl, omega arith)
  | inr (f, e) ↦ rw e (1, refl, omega arith)
]

guard-Stale :
    (k : Kernel) (s : State)
    → k.access guard_memset ≡ none
    → Stale (returns s)
    → Stale (demo_guard_page k s)
unfolding demo_guard_page
guard-Stale k s quiet old = elim (Option-cases (k.mmap 0)) [
  | inl m ↦ rw (m, demo_guard_page) old
  | inr (page, m) ↦ elim (Bool-cases (k.mprotect 0)) [
    | inl p ↦ elim (Option-cases (k.access guard_read)) [
      | inl e ↦ rw (m, demo_guard_page, p, quiet, e) (2, refl, omega arith)
      | inr (f, e) ↦ rw (m, demo_guard_page, p, quiet, e) (2, refl, omega arith)
    ]
    | inr p ↦ rw (m, demo_guard_page, p, quiet) old
  ]
]

abbrev IsUndefined : Flow → Type 0
IsUndefined (returns s) = ⊥
IsUndefined (undefined s) = Unit {0}

Stale-then :
    (flow : Flow) (f : State → Flow)
    → Stale flow
    → ((s : State) → Stale (returns s) → Stale (f s))
    → Stale (then_call flow f)
Stale-then (returns s) f old rest = rest s old
Stale-then (undefined s) f old rest = old

IsUndefined-then :
    (flow : Flow) (f : State → Flow)
    → Stale flow
    → ((s : State) → Stale (returns s) → IsUndefined (f s))
    → IsUndefined (then_call flow f)
IsUndefined-then (returns s) f old rest = rest s old
IsUndefined-then (undefined s) f old rest = tt

IsUndefined-then_call :
    (flow : Flow) (f : State → Flow) → IsUndefined flow → IsUndefined (then_call flow f)
IsUndefined-then_call (returns s) f e = absurd e
IsUndefined-then_call (undefined s) f e = e

protect-IsUndefined :
    (k : Kernel) (f : Fault) (s : State)
    → k.access protect_memset ≡ some f
    → Stale (returns s)
    → IsUndefined (demo_write_protect k s)
unfolding demo_write_protect
protect-IsUndefined k f s e (set_by, j, other) = rw (e, demo_write_protect, j, not_third) tt
  where
    not_third : (set_by == 3) ≡ false
    not_third = ground arith

-- If the memset of the third function faults, as it does where its unchecked `mmap` has failed, and that of the second
-- does not, the handler jumps to a function that has returned, and the program has no defined end.
pub lab_05_stale_jump :
    (k : Kernel) (f : Fault)
    → k.access guard_memset ≡ none
    → k.access protect_memset ≡ some f
    → (s : State) × (main k ≡ undefined s)
unfolding main
lab_05_stale_jump k f quiet faults = lost (main k) (
    IsUndefined-then_call _ _ (
      IsUndefined-then_call _ (demo_bus_error_sim k) (
        IsUndefined-then _ (demo_write_protect k)
          (Stale-then _ (demo_guard_page k) (null-Stale k start) (λ s. guard-Stale k s quiet))
          (λ s. protect-IsUndefined k f s faults))))
  where
    lost : (flow : Flow) → IsUndefined flow → (s : State) × (flow ≡ undefined s)
    lost (returns s) e = absurd e
    lost (undefined s) e = (s, refl)
