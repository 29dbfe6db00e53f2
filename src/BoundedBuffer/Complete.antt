-- ===== src/BoundedBuffer/Complete.antt =====
-- Without further spurious wake-ups the threads of labs/lab_22_condvar.c all return.
use linux_page_cache_lab.Base.{
  ℕ, zero, suc, ◌+◌, ◌-◌, ◌*◌, ◌≤◌, ◌<◌, ◌≡◌, refl, ◌∙◌, ap, arith, ◌⊎◌, inl, inr, numbers, total,
  total-replace, total-le, Star, Star-then, steps, steps-le, some,
}
use linux_page_cache_lab.BoundedBuffer.{
  n_items, Monitor, produce, got, consume, Producer, producing, blocked, returned, Consumer,
  consuming, sleeping, ended, System, init, wake, rouse, Signal, nobody, one, Act, produce_waits,
  produces, finishes, consume_waits, consume_ends, consumes, Step, act,
}
use linux_page_cache_lab.BoundedBuffer.Invariant.{made, Inv, Run-Inv}
use linux_page_cache_lab.BoundedBuffer.Progress.{AllReturned, no_deadlock}

-- How often a consumer may still wait or end before it is woken, and likewise the producer of `N` consumers.
abbrev wakings : Consumer → ℕ
wakings consuming = 2
wakings sleeping = 1
wakings ended = 0

abbrev pending : ℕ → Producer → ℕ
pending N (producing i) = N + 2
pending N (blocked i) = N + 1
pending N returned = 0

produced_when :
    (m : Monitor) (i : ℕ) {m' : Monitor} → produce m i ≡ some m' → m'.count ≡ m.count + 1
unfolding produce
produced_when m i h = ground arith

consumed_when :
    (m : Monitor) (val : ℕ) {m' : Monitor} → consume m ≡ got val m' → m'.count + 1 ≡ m.count
unfolding consume
consumed_when m val h = ground arith

rouse-wakings : (c : Consumer) → wakings (rouse c) ≤ wakings c + 1
rouse-wakings consuming = omega arith
rouse-wakings sleeping = omega arith
rouse-wakings ended = omega arith

module _ (N : ℕ) where
  -- Each item that is still to come costs 4, one in the buffer 2.
  work : System → ℕ
  work s = 4 * (n_items - made s.p) + 2 * s.m.count + pending N s.p + total wakings N s.cs

  roused :
      (n : ℕ) (cs : ℕ → Consumer) → total wakings n (λ k. rouse (cs k)) ≤ total wakings n cs + n
  unfolding total
  roused zero cs = omega arith
  roused (suc n) cs = omega (arith, roused n cs, rouse-wakings (cs n))

  signalled :
      {cs cs' : ℕ → Consumer} → Signal N cs cs' → total wakings N cs' ≤ total wakings N cs + 1
  signalled (nobody none_there) = omega arith
  signalled {cs} (one k lt e) = omega (arith, total-replace wakings N cs k consuming lt e)

  woken : (p : Producer) → (made (wake p) ≡ made p) × (pending N (wake p) ≤ pending N p + 1)
  woken (producing i) = (refl, omega arith)
  woken (blocked i) = (refl, omega arith)
  woken returned = (refl, omega arith)

  Act-work : (s t : System) → Act N s t → work t < work s
  unfolding work
  Act-work s t (produce_waits i e lt full) = omega (arith, ap made e, ap (pending N) e)
  Act-work s t (produces i e lt put sig) =
      omega (arith, ap made e, ap (pending N) e, produced_when s.m i put, signalled sig)
  Act-work s t (finishes e) = omega (arith, ap made e, ap (pending N) e, roused N s.cs)
  Act-work s t (consume_waits k lt e bare) =
      omega (arith, total-replace wakings N s.cs k sleeping lt e)
  Act-work s t (consume_ends k lt e bare) = omega (arith, total-replace wakings N s.cs k ended lt e)
  Act-work s t (consumes k val lt e take) = omega (arith, consumed_when s.m val take, woken s.p)

  work_bound : {s : System} → Inv N s → work s ≤ 82 + 3 * N
  unfolding work
  work_bound {s} v = omega (
    arith,
    v.counted,
    v.within,
    pending-le s.p,
    total-le wakings N 2 s.cs (λ k lt. wakings-le (s.cs k)),
  )
    where
      pending-le : (p : Producer) → pending N p ≤ N + 2
      pending-le (producing i) = omega arith
      pending-le (blocked i) = omega arith
      pending-le returned = omega arith

      wakings-le : (c : Consumer) → wakings c ≤ 2
      wakings-le consuming = omega arith
      wakings-le sleeping = omega arith
      wakings-le ended = omega arith

  all_printed : {u : System} → 0 < N → Inv N u → AllReturned N u → u.log ≡ numbers n_items
  all_printed {u} some_consumer v (p_done, c_done) =
      let (over, bare) = v.drained 0 (c_done 0 some_consumer) in
      v.printed ∙ ap numbers (omega (arith, v.counted, ap made p_done, bare))

  -- With a consumer at least: however a run has gone, spurious wake-ups included, from there on without them the threads
  -- take at most 82 + 3 * N sections more, and where none can take one all have returned and 0, 1, …, 19 is printed.
  pub buffer_completes :
      {s u : System}
      → 0 < N
      → Star (Step N) init s
      → (r : Star (Act N) s u)
      → (steps r ≤ 82 + 3 * N)
        × ((AllReturned N u × (u.log ≡ numbers n_items)) ⊎ ((t : System) × Act N u t))
  buffer_completes {s} {u} some_consumer q r = (
    omega (arith, steps-le work Act-work r, work_bound (Run-Inv N some_consumer q)),
    elim (no_deadlock N some_consumer (Star-then (λ s t a. act a) q r)) [
      | inl done ↦ inl (
        done,
        all_printed some_consumer (Run-Inv N some_consumer (Star-then (λ s t a. act a) q r)) done,
      )
      | inr more ↦ inr more
    ],
  )
