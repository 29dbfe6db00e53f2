-- ===== src/BoundedBuffer/Refine.antt =====
-- The monitor of labs/lab_22_condvar.c is a first-in first-out queue of 8 places.
use linux_page_cache_lab.Base.{
  ℕ, suc, ◌+◌, ◌<◌, ◌≡◌, refl, sym, ◌∙◌, ap, arith, ◌∷◌, [], ◌++◌, some, length, length-range,
  range, range-add_one, range_last, Star,
}
use mathlib.Core.Path.{subst, ap₂}
use linux_page_cache_lab.Fifo.{Fifo, empty, enqueue, dequeue, Seen, nothing, visible}
use linux_page_cache_lab.Fifo
use linux_page_cache_lab.Fifo.Slots.{slots, slots-eq-range}
use linux_page_cache_lab.Fifo.Order.{runs_refine}
use linux_page_cache_lab.Fifo.Client.{Queue}
use linux_page_cache_lab.BoundedBuffer.{
  buf_size, Monitor, produce, System, init, Act, produce_waits, produces, finishes, consume_waits,
  consume_ends, consumes, Step, act, spurious_producer, spurious_consumer,
}
use linux_page_cache_lab.BoundedBuffer.Ring.{Holds, produce-Holds, consume-Holds}
use linux_page_cache_lab.BoundedBuffer.Invariant.{made, wake_cases, Inv, Step-Inv, Inv-init}

-- The items in the ring, the number of the next item, and what has been printed.
abbrev pub view : System → Fifo
view s = record {
  waiting = slots s.m.buffer buf_size s.m.out_idx s.m.count;
  next_item = made s.p;
  out = s.log;
}

view-range :
    (m : Monitor) (first : ℕ)
    → Holds m first
    → slots m.buffer 8 m.out_idx m.count ≡ range first m.count
view-range m first h = slots-eq-range m.buffer 8 m.out_idx first m.count h.items

module _ (N : ℕ) (some_consumer : 0 < N) where
  Act-Seen : (s t : System) → Act N s t → Inv N s → Seen 8 (view s) (view t)
  Act-Seen s t (produce_waits i e lt full) v = nothing refl (sym (ap made e)) refl
  Act-Seen s t (produces i {m} {cs} e lt put sig) v =
      let item : i ≡ v.first + s.m.count = ground (arith, v.counted) in
      let (held, grown, same) =
        produce-Holds s.m v.first v.holds (subst (λ x. produce s.m x ≡ some m) item put) in
      let before = view-range s.m v.first v.holds in
      let later = view-range m v.first held in
      visible (
        enqueue (omega (arith, ap length before, length-range v.first s.m.count, held.fits, grown))
          (later
            ∙ ap (range v.first) grown
            ∙ range_last v.first s.m.count
            ∙ ap₂ (λ l x. l ++ (x ∷ [])) (sym before) v.counted)
          (omega (arith, ap made e)) refl)
  Act-Seen s t (finishes e) v = nothing refl (sym (ap made e)) refl
  Act-Seen s t (consume_waits k lt e bare) v = nothing refl refl refl
  Act-Seen s t (consume_ends k lt e bare) v = nothing refl refl refl
  Act-Seen s t (consumes k val {m} lt e take) v =
      let (held, is_first, shrunk, same) = consume-Holds s.m v.first val v.holds take in
      let before = view-range s.m v.first v.holds in
      let later = view-range m (suc v.first) held in
      visible (
        dequeue val
          (before
            ∙ ap (range v.first) (sym shrunk)
            ∙ range-add_one v.first m.count
            ∙ ap₂ ◌∷◌ (sym is_first) (sym later))
          (wake_cases s.p).0 refl)

  Step-Seen : (s t : System) → Step N s t → Inv N s → Seen 8 (view s) (view t)
  Step-Seen s t (act a) v = Act-Seen s t a v
  Step-Seen s t spurious_producer v = nothing refl (wake_cases s.p).0 refl
  Step-Seen s t (spurious_consumer k) v = nothing refl refl refl

  -- With a consumer at least, every run is, seen from outside, a run of the queue: the sections that fill or empty a
  -- place of the ring are its steps, all others do nothing to it.
  pub buffer_refines :
      {s : System} → Star (Step N) init s → Star (Fifo.Step buf_size) empty (view s)
  buffer_refines =
      runs_refine 8 view (Inv N) (Step-Inv N some_consumer) Step-Seen (Inv-init N some_consumer)

  abbrev pub buffer_queue : Queue
  buffer_queue = record {
    State = System;
    Step = Step N;
    start = init;
    cap = buf_size;
    view = view;
    refines = buffer_refines;
  }
