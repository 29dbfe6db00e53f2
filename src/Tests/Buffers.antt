-- ===== src/Tests/Buffers.antt =====
-- The bounded buffer of lab 22 with two consumers.
use linux_page_cache_lab.Base.{
  ℕ, ◌+◌, ◌≤◌, ◌≡◌, refl, arith, Star, here, next, [], ◌∷◌, ◌⊎◌, numbers, ◌*◌, steps,
}
use linux_page_cache_lab.Futex
use linux_page_cache_lab.Futex.{returned, joining, asleep, storing, futex_completes}
use linux_page_cache_lab.BoundedBuffer
use linux_page_cache_lab.BoundedBuffer.{
  Monitor, System, Act, init, produce, consume, producing, got,
}
use linux_page_cache_lab.BoundedBuffer.Progress.{AllReturned, items_in_order}
use linux_page_cache_lab.BoundedBuffer.Refine.{view, buffer_refines}
use linux_page_cache_lab.BoundedBuffer.Complete.{buffer_completes}
use linux_page_cache_lab.Fifo

-- Item 0 has been produced and consumed.
abbrev after_one : System
after_one = record init {
  m = record (init.m) { in_idx = 1; out_idx = 1 };
  p = producing 1;
  log = 0 ∷ [];
}

one_item_run : Star (BoundedBuffer.Step 2) init after_one
unfolding produce consume
one_item_run =
    next
      (next here (
        BoundedBuffer.act
          (BoundedBuffer.produces 0 refl (omega arith) refl (BoundedBuffer.nobody (λ k lt h. cc)))))
      (BoundedBuffer.act (BoundedBuffer.consumes 1 0 (omega arith) refl refl))

items_in_order_example : (n : ℕ) × (0 ∷ [] ≡ numbers n) × (n + 0 ≡ 1) × (0 ≤ 8)
items_in_order_example = items_in_order 2 (omega arith) one_item_run

buffer_refines_example : Star (Fifo.Step 8) Fifo.empty (view after_one)
buffer_refines_example = buffer_refines 2 (omega arith) one_item_run

-- From there the producer makes item 1, and no consumer sleeps.
abbrev after_two : System
after_two = record after_one {
  m = record (after_one.m) { buffer = 0 ∷ 1 ∷ 0 ∷ 0 ∷ 0 ∷ 0 ∷ 0 ∷ 0 ∷ []; in_idx = 2; count = 1 };
  p = producing 2;
}

second_item : Star (Act 2) after_one after_two
unfolding produce
second_item =
    next here
      (BoundedBuffer.produces 1 refl (omega arith) refl (BoundedBuffer.nobody (λ k lt h. cc)))

buffer_completes_example :
    (steps second_item ≤ 82 + 3 * 2)
    × ((AllReturned 2 after_two × (0 ∷ [] ≡ numbers 20)) ⊎ ((t : System) × Act 2 after_two t))
buffer_completes_example = buffer_completes 2 (omega arith) one_item_run second_item

-- From the start, without spurious returns.
quiet_run : Star Futex.Act Futex.init (Futex.state 0 asleep storing)
quiet_run = next (next here Futex.test_zero) Futex.wait_sleeps

futex_completes_example :
    (steps quiet_run ≤ 8)
    × ((Futex.state 0 asleep storing ≡ Futex.state 1 returned joining)
        ⊎ ((t : Futex.System) × Futex.Act (Futex.state 0 asleep storing) t))
futex_completes_example = futex_completes here quiet_run
