-- ===== src/Semaphores/Refine.antt =====
-- The buffer of labs/lab_23_mpmc_semaphore.c is a first-in first-out queue of 5 places.
use linux_page_cache_lab.Base.{
  ℕ, suc, ◌+◌, ◌-◌, ◌≡◌, refl, sym, ◌∙◌, ap, arith, ◌∷◌, [], ◌++◌, get_or, length, length-range,
  range, range-add_one, range_last, Star,
}
use mathlib.Core.Path.{ap₂}
use linux_page_cache_lab.Fifo.{Fifo, empty, enqueue, dequeue, Seen, nothing, visible}
use linux_page_cache_lab.Fifo
use linux_page_cache_lab.Fifo.Slots.{slots, slots-eq-range}
use linux_page_cache_lab.Fifo.Order.{runs_refine}
use linux_page_cache_lab.Fifo.Client.{Queue}
use linux_page_cache_lab.Semaphores.{
  buf_size, Shared, System, init, put, take, taken, Step, wait_empty, puts, post_full, wait_full,
  takes, post_empty,
}
use linux_page_cache_lab.Semaphores.Ring.{Holds, put-Holds, take-Holds}
use linux_page_cache_lab.Semaphores.Order.{Inv, room, some_item, Step-Inv, init-Inv}

-- The items between the two counts, the number of the next item, and what has been printed.
abbrev pub view : System → Fifo
view s = record {
  waiting = slots s.sh.buffer buf_size s.sh.out_i (s.sh.total_produced - s.sh.total_consumed);
  next_item = s.sh.total_produced;
  out = s.log;
}

view-range :
    (sh : Shared)
    → Holds sh
    → slots sh.buffer 5 sh.out_i (sh.total_produced - sh.total_consumed)
      ≡ range sh.total_consumed (sh.total_produced - sh.total_consumed)
view-range sh h =
    slots-eq-range sh.buffer 5 sh.out_i sh.total_consumed (sh.total_produced - sh.total_consumed)
      (λ j lt.
        ap (λ k. get_or sh.buffer k 0) (omega (arith, h.out_at))
        ∙ h.items (sh.total_consumed + j) (omega arith) (omega arith))

module _ (P C : ℕ) where
  Step-Seen : (s t : System) → Step P C s t → Inv P C s → Seen 5 (view s) (view t)
  unfolding put take
  Step-Seen s s' (wait_empty t i e lt at_i more free) inv = nothing refl refl refl
  Step-Seen s s' (puts t i lt at_i) inv =
      let free = room P C t i inv lt at_i in
      let c = s.sh.total_consumed in
      let n = s.sh.total_produced - c in
      let before = view-range s.sh inv.holds in
      let later = view-range (put s.sh) (put-Holds s.sh inv.holds free) in
      let grown : s.sh.total_produced + 1 - c ≡ n + 1 = omega (arith, inv.holds.order) in
      let next_is : c + n ≡ s.sh.total_produced = omega (arith, inv.holds.order) in
      visible (
        enqueue (omega (arith, ap length before, length-range c n))
          (later
            ∙ ap (range c) grown
            ∙ range_last c n
            ∙ ap₂ (λ l x. l ++ (x ∷ [])) (sym before) next_is)
          refl refl)
  Step-Seen s s' (post_full t i lt at_i) inv = nothing refl refl refl
  Step-Seen s s' (wait_full t i e lt at_i more full) inv = nothing refl refl refl
  Step-Seen s s' (takes t i lt at_i) inv =
      let there = some_item P C t i inv lt at_i in
      let (held, is_first) = take-Holds s.sh inv.holds there in
      let c = s.sh.total_consumed in
      let n = s.sh.total_produced - (c + 1) in
      let before = view-range s.sh inv.holds in
      let later = view-range (take s.sh) held in
      let shrunk : s.sh.total_produced - c ≡ n + 1 = omega arith in
      let next_first : suc c ≡ c + 1 = omega arith in
      visible (
        dequeue (taken s.sh)
          (before
            ∙ ap (range c) shrunk
            ∙ range-add_one c n
            ∙ ap₂ ◌∷◌ (sym is_first) (ap (λ a. range a n) next_first ∙ sym later))
          refl refl)
  Step-Seen s s' (post_empty t i lt at_i) inv = nothing refl refl refl

  -- Every run of producers and consumers is, seen from outside, a run of the queue: the two sections under the mutex are
  -- its steps, and the calls on the semaphores do nothing to it.
  pub semaphores_refine :
      {s : System} → Star (Step P C) init s → Star (Fifo.Step buf_size) empty (view s)
  semaphores_refine = runs_refine 5 view (Inv P C) (Step-Inv P C) Step-Seen (init-Inv P C)

  abbrev pub semaphores_queue : Queue
  semaphores_queue = record {
    State = System;
    Step = Step P C;
    start = init;
    cap = buf_size;
    view = view;
    refines = semaphores_refine;
  }
