-- ===== src/Tests/Stacks.antt =====
-- Instances of the theorems on the lock-free stack.
use linux_page_cache_lab.Base.{
  ℕ, zero, suc, ◌+◌, ◌*◌, ◌<◌, ◌≤◌, ◌≡◌, ◌⊎◌, steps, refl, arith, true, false, Option, some, List,
  length, ℕ_discrete, Star, Star-trans,
}
use linux_page_cache_lab.LockFree.{next_read, swapped, System, init, Step, Joined, pop_all}
use linux_page_cache_lab.LockFree.Alone.{after_push, push_runs}
use linux_page_cache_lab.LockFree.PopAll.{occurrences, pops_all_pushed}
use linux_page_cache_lab.LockFree.Complete.{spurious, spurious_in, pushers_complete}
use linux_page_cache_lab.LockFree.Aba.{ReuseRun, aba_dangles}

-- Two threads push one value each.
abbrev both : System
both = after_push (after_push init 0 0 7) 1 0 9

both_run : Star (Step 2 1 false) init both
unfolding ℕ_discrete
both_run =
    Star-trans (push_runs init 0 0 7 (omega arith) (omega arith) refl refl)
      (push_runs (after_push init 0 0 7) 1 0 9 (omega arith) (omega arith) refl refl)

both_joined : Joined 2 1 both
unfolding ℕ_discrete
both_joined zero h = refl
both_joined (suc zero) h = refl
both_joined (suc (suc t)) h = absurd (omega arith)

pops_all_pushed_example :
    (vs : List ℕ) × (pop_all 3 both.heap both.top ≡ some vs)
    × (length vs ≡ 2)
    × ((v : ℕ) → v < 1 → occurrences v vs ≡ 2)
pops_all_pushed_example = pops_all_pushed 2 1 both_run both_joined

pushers_complete_example :
    (steps both_run ≤ 2 * ((3 + 2 * 2) * 1) + 2 * spurious_in both_run)
    × (Joined 2 1 both ⊎ ((u : System) × (st : Step 2 1 false both u) × (spurious st ≡ 0)))
pushers_complete_example = pushers_complete both_run

aba_dangles_example :
    ((t i old : ℕ) (under : Option ℕ) (s u : System)
      → Step 2 5 true s u
      → s.pc t ≡ next_read i old under
      → u.pc t ≡ swapped i old
      → s.top ≡ some old)
    × ReuseRun 2 5
aba_dangles_example = aba_dangles 2 5 (omega arith) (omega arith)
