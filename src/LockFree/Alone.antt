-- ===== src/LockFree/Alone.antt =====
-- Operations of the stack that no other thread interrupts.
use linux_page_cache_lab.Base.{
  ℕ, ◌+◌, ◌<◌, ◌≡◌, refl, arith, Bool, true, Option, none, some, update, Star, here, next,
}
use linux_page_cache_lab.LockFree.{
  Node, idle, allocated, linked, seen, next_read, swapped, System, Step, alloc, link, push_swaps,
  load_top, read_next, pop_swaps, frees,
}

-- The state after a thread has done a whole `push`, and a whole `pop`, with no other step in between.
abbrev pub after_push : System → (t i n : ℕ) → System
after_push s t i n = record {
  heap =
      update (update s.heap n (some (record { val = i; next = none }))) n
        (some (record { val = i; next = s.top }));
  top = some n;
  pc = update (update (update s.pc t (allocated i n)) t (linked i n s.top)) t (idle (i + 1));
}

abbrev pub after_pop : System → (t i old : ℕ) → (under : Option ℕ) → System
after_pop s t i old under = record {
  heap = update s.heap old none;
  top = under;
  pc =
      update
        (update (update (update s.pc t (seen i old)) t (next_read i old under)) t (swapped i old)) t
        (idle (i + 1));
}

module _ {T items : ℕ} {may_pop : Bool} where
  pub push_runs :
      (s : System) (t i n : ℕ)
      → t < T
      → i < items
      → s.pc t ≡ idle i
      → s.heap n ≡ none
      → Star (Step T items may_pop) s (after_push s t i n)
  push_runs s t i n inside more e gone =
      next (next (next here (alloc t i n inside more e gone)) (link t i n inside (ground arith)))
        (push_swaps t i n s.top inside (ground arith) refl)

  pub pop_runs :
      (s : System) (t i old : ℕ) (node : Node)
      → may_pop ≡ true
      → t < T
      → i < items
      → s.pc t ≡ idle i
      → s.top ≡ some old
      → s.heap old ≡ some node
      → Star (Step T items may_pop) s (after_pop s t i old node.next)
  pop_runs s t i old node can inside more e tops held =
      next
        (next
          (next (next here (load_top t i old can inside more e tops))
            (read_next t i old node inside (ground arith) held))
          (pop_swaps t i old node.next inside (ground arith) tops))
        (frees t i old inside (ground arith))
