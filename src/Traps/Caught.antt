-- ===== src/Traps/Caught.antt =====
-- What labs/lab_05_segmentation_traps.c has caught and given back when it ends, and where it does not end.
use Prim.Native.String.{String}
use linux_page_cache_lab.Base.{
  if◌then◌else◌, ◌==◌, ℕ, ◌+◌, ◌≡◌, refl, arith, Bool, true, false, Option, none, some, ◌∷◌, [],
  inl, inr, Bool-cases, Option-cases,
}
use linux_page_cache_lab.Report.{shows}
use linux_page_cache_lab.Report.Balance.{
  Resource, handles, mappings, bytes, gain, loss, tally, tally-append,
}
use linux_page_cache_lab.Traps.{Fault, State, start, Flow, returns, undefined, then_call, say}
use linux_page_cache_lab.Traps.Segv.{
  null_read, guard_memset, guard_read, protect_memset, protect_write, file_read, beyond_read,
  Kernel, demo_null_deref, demo_guard_page, demo_write_protect, demo_bus_error_sim, main,
}

abbrev pub caught : Option Fault → ℕ
caught none = 0
caught (some f) = 1

-- The faults that the second and the fourth function get to, and the bytes that the second leaves mapped.
abbrev pub guard_caught : Option ℕ → Bool → Option Fault → ℕ
guard_caught (some page) true fault = caught fault
guard_caught mapped protects fault = 0

abbrev pub bus_caught : Bool → Option ℕ → Option Fault → ℕ
bus_caught true (some p) fault = caught fault
bus_caught created mapped fault = 0

abbrev pub left_mapped : Option ℕ → Bool → (page_size : ℕ) → Resource → ℕ
left_mapped (some page) false page_size (mappings size) = if size == page_size then 1 else 0
left_mapped (some page) false page_size bytes = page_size
left_mapped mapped protects page_size r = 0

-- What an event gives out beyond what it takes back, summed over both sides.
abbrev Gave : (s s' : State) → (Resource → ℕ) → Type 0
Gave s s' left =
    (r : Resource)
    → tally (gain r) s'.events + tally (loss r) s.events
      ≡ tally (loss r) s'.events + tally (gain r) s.events + left r

-- A call that returns, with so many more faults caught and so many more bytes or files not given back.
abbrev Ends : Flow → State → (faults : ℕ) → (left : Resource → ℕ) → Type 0
Ends (returns s') s faults left = (s'.fault_count ≡ s.fault_count + faults) × Gave s s' left
Ends (undefined s') s faults left = ⊥

abbrev nothing : Resource → ℕ
nothing r = 0

each :
    (P : Resource → Type 0)
    → ((path : String) → P (handles path))
    → ((size : ℕ) → P (mappings size))
    → P bytes
    → (r : Resource) → P r
each P p s q (handles path) = p path
each P p s q (mappings size) = s size
each P p s q bytes = q

ruleset tallies = (arith, tally-append)

null-Ends :
    (k : Kernel) (s : State) → Ends (demo_null_deref k s) s (caught (k.access null_read)) nothing
unfolding demo_null_deref tally gain loss
null-Ends k s = elim (Option-cases (k.access null_read)) [
  | inl e ↦ rw e (omega arith, each _ (λ h. omega tallies) (λ n. omega tallies) (omega tallies))
  | inr (f, e) ↦
      rw e (omega arith, each _ (λ h. omega tallies) (λ n. omega tallies) (omega tallies))
]

guard-Ends :
    (k : Kernel) (s : State)
    → k.access guard_memset ≡ none
    → Ends
        (demo_guard_page k s)
        s
        (guard_caught (k.mmap 0) (k.mprotect 0) (k.access guard_read))
        (left_mapped (k.mmap 0) (k.mprotect 0) k.page_size)
unfolding demo_guard_page tally gain loss
guard-Ends k s quiet = elim (Option-cases (k.mmap 0)) [
  | inl m ↦
      rw (m, demo_guard_page)
        (omega arith, each _ (λ h. omega tallies) (λ n. omega tallies) (omega tallies))
  | inr (page, m) ↦ elim (Bool-cases (k.mprotect 0)) [
    | inl p ↦ elim (Option-cases (k.access guard_read)) [
      | inl e ↦
          rw (m, demo_guard_page, p, quiet, e)
            (omega arith, each _ (λ h. omega tallies) (λ n. omega tallies) (omega tallies))
      | inr (f, e) ↦
          rw (m, demo_guard_page, p, quiet, e)
            (omega arith, each _ (λ h. omega tallies) (λ n. omega tallies) (omega tallies))
    ]
    | inr p ↦
        rw (m, demo_guard_page, p, quiet)
          (omega arith, each _ (λ h. omega tallies) (λ n. omega tallies) (omega tallies))
  ]
]

protect-Ends :
    (k : Kernel) (s : State) (page : ℕ)
    → k.mmap 1 ≡ some page
    → k.access protect_memset ≡ none
    → Ends (demo_write_protect k s) s (caught (k.access protect_write)) nothing
unfolding demo_write_protect tally gain loss
protect-Ends k s page m quiet = elim (Option-cases (k.access protect_write)) [
  | inl e ↦
      rw (quiet, e, m)
        (omega arith, each _ (λ h. omega tallies) (λ n. omega tallies) (omega tallies))
  | inr (f, e) ↦
      rw (quiet, e, m)
        (omega arith, each _ (λ h. omega tallies) (λ n. omega tallies) (omega tallies))
]

bus-Ends :
    (k : Kernel) (s : State)
    → k.access file_read ≡ none
    → Ends
        (demo_bus_error_sim k s)
        s
        (bus_caught k.mkstemp (k.mmap 2) (k.access beyond_read))
        nothing
unfolding demo_bus_error_sim tally gain loss
bus-Ends k s quiet = elim (Bool-cases k.mkstemp) [
  | inl c ↦ elim (Option-cases (k.mmap 2)) [
    | inl m ↦
        rw (c, demo_bus_error_sim, m)
          (omega arith, each _ (λ h. omega tallies) (λ n. omega tallies) (omega tallies))
    | inr (p, m) ↦ elim (Option-cases (k.access beyond_read)) [
      | inl e ↦
          rw (c, demo_bus_error_sim, m, quiet, e)
            (omega arith, each _ (λ h. omega tallies) (λ n. omega tallies) (omega tallies))
      | inr (f, e) ↦
          rw (c, demo_bus_error_sim, m, quiet, e)
            (omega arith, each _ (λ h. omega tallies) (λ n. omega tallies) (omega tallies))
    ]
  ]
  | inr c ↦
      rw (c, demo_bus_error_sim)
        (omega arith, each _ (λ h. omega tallies) (λ n. omega tallies) (omega tallies))
]

then-Ends :
    (flow : Flow) (f : State → Flow) (s : State) (a b : ℕ) (l l' : Resource → ℕ)
    → Ends flow s a l
    → ((s' : State) → Ends (f s') s' b l')
    → Ends (then_call flow f) s (a + b) (λ r. l r + l' r)
then-Ends (returns t) f s a b l l' first rest = both (f t) (rest t)
  where
    both : (end : Flow) → Ends end t b l' → Ends end s (a + b) (λ r. l r + l' r)
    both (returns u) e = (omega (arith, first.0, e.0), λ r. omega (arith, first.1 r, e.1 r))
    both (undefined u) e = e
then-Ends (undefined t) f s a b l l' first rest = first

returned :
    (flow : Flow) (s : State) (faults : ℕ) (left : Resource → ℕ)
    → Ends flow s faults left
    → (s' : State) × (flow ≡ returns s')
      × (s'.fault_count ≡ s.fault_count + faults)
      × Gave s s' left
returned (returns s') s faults left e = (s', refl, e.0, e.1)
returned (undefined s') s faults left e = absurd e

-- If the page of the third function is mapped and the accesses outside of every `sigsetjmp` do not fault, the program
-- ends, and has counted exactly the faults that its guarded accesses meet. Then each path has been closed as often as opened, and
-- mappings of each size unmapped as often as mapped, and so as many bytes, except for the page of the second function if its `mprotect` fails.
pub lab_05_counts :
    (k : Kernel) (page : ℕ)
    → k.mmap 1 ≡ some page
    → k.access guard_memset ≡ none
    → k.access protect_memset ≡ none
    → k.access file_read ≡ none
    → (s : State) × (main k ≡ returns s)
      × (s.fault_count
          ≡ caught (k.access null_read)
            + guard_caught (k.mmap 0) (k.mprotect 0) (k.access guard_read)
            + caught (k.access protect_write)
            + bus_caught k.mkstemp (k.mmap 2) (k.access beyond_read))
      × ((path : String)
          → tally (gain (handles path)) s.events ≡ tally (loss (handles path)) s.events)
      × ((size : ℕ)
          → tally (gain (mappings size)) s.events
            ≡ tally (loss (mappings size)) s.events
              + left_mapped (k.mmap 0) (k.mprotect 0) k.page_size (mappings size))
      × (tally (gain bytes) s.events
          ≡ tally (loss bytes) s.events + left_mapped (k.mmap 0) (k.mprotect 0) k.page_size bytes)
unfolding main tally gain loss
lab_05_counts k page m quiet quiet' quiet'' =
    let all = returned (main k) start _ _ (
      then-Ends _ (λ s. returns (say (shows "Total faults caught" s.fault_count ∷ []) s)) start _ 0
        _ nothing
        (then-Ends _ (demo_bus_error_sim k) start _ _ _ nothing
          (then-Ends _ (demo_write_protect k) start _ _ _ nothing
            (then-Ends _ (demo_guard_page k) start _ _ nothing _ (null-Ends k start)
              (λ s. guard-Ends k s quiet))
            (λ s. protect-Ends k s page m quiet'))
          (λ s. bus-Ends k s quiet''))
        (λ s. (omega arith, each _ (λ h. omega tallies) (λ n. omega tallies) (omega tallies)))) in
    (
      all.0,
      all.1,
      omega (arith, all.2),
      λ h. omega (arith, all.3 (handles h), no_handles h (k.mmap 0) (k.mprotect 0)),
      λ n. omega (arith, all.3 (mappings n)),
      omega (arith, all.3 bytes),
    )
  where
    no_handles :
        (h : String) (o : Option ℕ) (b : Bool) → left_mapped o b k.page_size (handles h) ≡ 0
    no_handles h none b = refl
    no_handles h (some p) true = refl
    no_handles h (some p) false = refl
