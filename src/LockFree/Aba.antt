-- ===== src/LockFree/Aba.antt =====
-- What the compare-and-swap of `pop` does not see: a node that was freed and given out again.
use linux_page_cache_lab.Base.{
  ℕ, ◌≤◌, ◌≡◌, ◌≢◌, refl, sym, ◌∙◌, arith, Bool, true, Option, none, some, update, ℕ_discrete, Star,
  Star-trans, next,
}
use linux_page_cache_lab.LockFree.{
  Node, Pc, seen, next_read, swapped, System, init, Step, alloc, link, push_swaps, push_retries,
  load_top, load_empty, read_next, pop_swaps, pop_retries, pop_finds_empty, frees,
}
use linux_page_cache_lab.LockFree.Alone.{after_push, after_pop, push_runs, pop_runs}

-- Two values 0 and 1 are pushed into the nodes 0 and 1. Thread 0 has read that node 0 lies under node 1.
abbrev two_pushed : System
two_pushed = after_push (after_push init 1 0 0) 1 1 1

abbrev waiting : System
waiting = record two_pushed {
  pc = update (update two_pushed.pc 0 (seen 0 1)) 0 (next_read 0 1 (some 0));
}

-- Thread 1 pops both and pushes again, into node 1.
abbrev reused : System
reused = after_push (after_pop (after_pop waiting 1 2 1 (some 0)) 1 3 0 none) 1 4 1

elsewhere : (pcs : ℕ → Pc) (k t : ℕ) (new : Pc) → k ≢ t → update pcs k new t ≡ pcs t
elsewhere pcs k t new apart = ground arith

there : (pcs : ℕ → Pc) (k t : ℕ) (new : Pc) → k ≡ t → update pcs k new t ≡ new
there pcs k t new same = ground arith

-- If a thread gets behind its swap, its own step has taken it there.
moved :
    (pcs : ℕ → Pc) (k t i old : ℕ) (under : Option ℕ) (new : Pc)
    → pcs t ≡ next_read i old under
    → update pcs k new t ≡ swapped i old
    → (k ≡ t) × (new ≡ swapped i old)
moved pcs k t i old under new before after = elim (ℕ_discrete k t) [
  | yes same ↦ (same, sym (there pcs k t new same) ∙ after)
  | no other ↦ cc (elsewhere pcs k t new other)
]

module _ {T items : ℕ} {may_pop : Bool} (t i old : ℕ) (under : Option ℕ) where
  -- The swap of `pop` compares the top with what the thread has loaded.
  swap_compares :
      (s u : System)
      → Step T items may_pop s u
      → s.pc t ≡ next_read i old under
      → u.pc t ≡ swapped i old
      → s.top ≡ some old
  swap_compares s u (alloc k j n inside more e gone) p q =
      absurd (cc ((moved s.pc k t i old under _ p q).1))
  swap_compares s u (link k j n inside e) p q = absurd (cc ((moved s.pc k t i old under _ p q).1))
  swap_compares s u (push_swaps k j n o inside e tops) p q =
      absurd (cc ((moved s.pc k t i old under _ p q).1))
  swap_compares s u (push_retries k j n o inside e) p q =
      absurd (cc ((moved s.pc k t i old under _ p q).1))
  swap_compares s u (load_top k j o can inside more e tops) p q =
      absurd (cc ((moved s.pc k t i old under _ p q).1))
  swap_compares s u (load_empty k j can inside more e tops) p q =
      absurd (cc ((moved s.pc k t i old under _ p q).1))
  swap_compares s u (read_next k j o node inside e held) p q =
      absurd (cc ((moved s.pc k t i old under _ p q).1))
  swap_compares s u (pop_swaps k j o w inside e tops) p q =
      cc ((moved s.pc k t i old under _ p q).1)
  swap_compares s u (pop_retries k j o new w inside e tops) p q =
      absurd (cc ((moved s.pc k t i old under _ p q).1))
  swap_compares s u (pop_finds_empty k j o w inside e tops) p q =
      absurd (cc ((moved s.pc k t i old under _ p q).1))
  swap_compares s u (frees k j o inside e) p q = absurd (cc ((moved s.pc k t i old under _ p q).1))

-- A run that goes wrong, in its parts: a thread has read which node `b` lies under the top `a`; then `a` is freed; then it is given out again and on
-- top again, and the thread still stands before its swap; and the swap succeeds and leaves `b` on top, which has been freed.
pub record ReuseRun (T items : ℕ) : Type 0 where
  pub t : ℕ
  pub i : ℕ
  pub a : ℕ
  pub b : ℕ
  pub read : System
  pub freed : System
  pub reused : System
  pub last : System
  pub before_read : Star (Step T items true) init read
  pub has_read : (read.top ≡ some a) × (read.pc t ≡ next_read i a (some b))
  pub before_freed : Star (Step T items true) read freed
  pub is_freed : freed.heap a ≡ none
  pub before_reused : Star (Step T items true) freed reused
  pub is_reused : (reused.top ≡ some a) × (reused.pc t ≡ next_read i a (some b))
  pub is_given : (node : Node) × (reused.heap a ≡ some node)
  pub swaps : Step T items true reused last
  pub has_swapped : last.pc t ≡ swapped i a
  pub dangling : (last.top ≡ some b) × (last.heap b ≡ none)

-- Where threads both push and pop, the swap of `pop` succeeds only if the top is what the thread has loaded; still, with two
-- threads of five operations, in some run a thread reads which node lies under the top, the top is freed and pushed again, and
-- the swap of the thread succeeds and leaves a freed node on top.
pub aba_dangles :
    (T items : ℕ)
    → 2 ≤ T
    → 5 ≤ items
    → ((t i old : ℕ) (under : Option ℕ) (s u : System)
        → Step T items true s u
        → s.pc t ≡ next_read i old under
        → u.pc t ≡ swapped i old
        → s.top ≡ some old)
      × ReuseRun T items
unfolding ℕ_discrete
aba_dangles T items threads rounds = (
  λ t i old under s u st p q. swap_compares t i old under s u st p q,
  record {
    t = 0;
    i = 0;
    a = 1;
    b = 0;
    read = waiting;
    freed = after_pop waiting 1 2 1 (some 0);
    reused = reused;
    last = record reused { top = some 0; pc = update reused.pc 0 (swapped 0 1) };
    before_read =
        next
          (next
            (Star-trans (push_runs init 1 0 0 (omega arith) (omega arith) refl refl)
              (push_runs (after_push init 1 0 0) 1 1 1 (omega arith) (omega arith) refl refl))
            (load_top 0 0 1 refl (omega arith) (omega arith) refl refl))
          (read_next 0 0 1 (record { val = 1; next = some 0 }) (omega arith) refl refl);
    has_read = (refl, refl);
    before_freed =
        pop_runs waiting 1 2 1 (record { val = 1; next = some 0 }) refl (omega arith) (omega arith)
          refl refl refl;
    is_freed = refl;
    before_reused =
        Star-trans
          (pop_runs (after_pop waiting 1 2 1 (some 0)) 1 3 0 (record { val = 0; next = none }) refl
            (omega arith) (omega arith) refl refl refl)
          (push_runs (after_pop (after_pop waiting 1 2 1 (some 0)) 1 3 0 none) 1 4 1 (omega arith)
            (omega arith) refl refl);
    is_reused = (refl, refl);
    is_given = (_, refl);
    swaps = pop_swaps 0 0 1 (some 0) (omega arith) refl refl;
    has_swapped = refl;
    dangling = (refl, refl);
  },
)
