-- ===== src/Traps/Recovered.antt =====
-- Every fault of labs/lab_06_trap_handlers.c is recovered from.
use text.Mathlib.Text.{◌==◌ as str_eq}
use linux_page_cache_lab.Base.{ℕ, ◌+◌, ◌≡◌, refl, arith, if◌then◌else◌, inl, inr, Option-cases}
use linux_page_cache_lab.Report.{Event, shows}
use linux_page_cache_lab.Report.Balance.{tally, tally-append}
use linux_page_cache_lab.Traps.{State, start, Flow, returns, undefined, then_call}
use linux_page_cache_lab.Traps.Signals.{
  Machine, demo_div_zero, demo_breakpoint, demo_fault_address_handler, main,
}
use linux_page_cache_lab.Traps.Caught.{caught}

-- The handler's lines on the registers.
abbrev pub reports : Event → ℕ
reports (shows label value) = if str_eq label "RIP" then 1 else 0
reports e = 0

abbrev Recovers : Flow → State → (faults : ℕ) → Type 0
Recovers (returns s') s faults = tally reports s'.events ≡ tally reports s.events + faults
Recovers (undefined s') s faults = ⊥

ruleset tallies = (arith, tally-append)

div-Recovers : (m : Machine) (s : State) → Recovers (demo_div_zero m s) s (caught m.division)
unfolding demo_div_zero tally
div-Recovers m s = elim (Option-cases m.division) [
  | inl e ↦ rw (e, demo_div_zero) (omega tallies)
  | inr (f, e) ↦ rw (e, demo_div_zero) (omega tallies)
]

breakpoint-Recovers : (m : Machine) (s : State) → Recovers (demo_breakpoint m s) s (caught m.int3)
unfolding demo_breakpoint tally
breakpoint-Recovers m s = elim (Option-cases m.int3) [
  | inl e ↦ rw (e, demo_breakpoint) (omega tallies)
  | inr (f, e) ↦ rw (e, demo_breakpoint) (omega tallies)
]

address-Recovers :
    (m : Machine) (s : State) → Recovers (demo_fault_address_handler m s) s (caught m.bad_read)
unfolding demo_fault_address_handler tally
address-Recovers m s = elim (Option-cases m.bad_read) [
  | inl e ↦ rw (e, demo_fault_address_handler) (omega tallies)
  | inr (f, e) ↦ rw (e, demo_fault_address_handler) (omega tallies)
]

then-Recovers :
    (flow : Flow) (f : State → Flow) (s : State) (a b : ℕ)
    → Recovers flow s a
    → ((s' : State) → Recovers (f s') s' b)
    → Recovers (then_call flow f) s (a + b)
then-Recovers (returns t) f s a b first rest = both (f t) (rest t)
  where
    both : (end : Flow) → Recovers end t b → Recovers end s (a + b)
    both (returns u) e = omega (arith, first, e)
    both (undefined u) e = e
then-Recovers (undefined t) f s a b first rest = first

-- Whatever the instructions come to, each jump goes to the running function: the program returns, and has
-- reported exactly the faults that there were.
pub lab_06_recovers :
    (m : Machine)
    → (s : State) × (main m ≡ returns s)
      × (tally reports s.events ≡ caught m.division + caught m.int3 + caught m.bad_read)
unfolding main tally
lab_06_recovers m = ended (main m) (
    then-Recovers _ (demo_fault_address_handler m) start _ _
      (then-Recovers _ (demo_breakpoint m) start _ _ (div-Recovers m start) (breakpoint-Recovers m))
      (address-Recovers m))
  where
    ended :
        (flow : Flow)
        → Recovers flow start (caught m.division + caught m.int3 + caught m.bad_read)
        → (s : State) × (flow ≡ returns s)
          × (tally reports s.events ≡ caught m.division + caught m.int3 + caught m.bad_read)
    ended (returns s) e = (s, refl, omega (arith, e))
    ended (undefined s) e = absurd e
