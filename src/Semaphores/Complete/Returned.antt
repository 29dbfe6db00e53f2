-- ===== src/Semaphores/Complete/Returned.antt =====
-- Where no step is left in labs/lab_23_mpmc_semaphore.c, all threads have returned.
use linux_page_cache_lab.Base.{
  ℕ, zero, suc, ◌+◌, ◌-◌, ◌*◌, ◌≤◌, ◌<◌, ◌≡◌, ◌≢◌, ◌∙◌, ap, arith, ◌⊎◌, inl, inr, numbers, total,
  total_pos, le-total, total_const, find_ne, dec_lt, Star, steps, refl,
}
use linux_page_cache_lab.Semaphores.{Pc, at, entered, left, rounds, System, init, Step}
use linux_page_cache_lab.Semaphores.Order.{Inv, Run-Inv, sections, in_section, leaving}
use linux_page_cache_lab.Semaphores.Complete.{
  Pc-discrete, IsWithin, Within, Run-Within, Joined, steps_bound, producer_moves, consumer_moves,
}

abbrev inside : Pc → ℕ
inside p = in_section p + leaving p

abbrev rest : Pc → ℕ
rest p = rounds - sections p

sections-rest :
    (n : ℕ) (f : ℕ → Pc) → ((t : ℕ) → IsWithin (f t)) → total sections n f + total rest n f ≡ n * 10
unfolding total
sections-rest zero f w = omega arith
sections-rest (suc n) f w = omega (arith, sections-rest n f w, bounded (f n) (w n))
  where
    bounded : (p : Pc) → IsWithin p → sections p ≤ 10
    bounded (at i) h = h
    bounded (entered i) h = omega arith
    bounded (left i) h = omega arith

total-inside : (n : ℕ) (f : ℕ → Pc) → total inside n f ≡ total in_section n f + total leaving n f
unfolding total
total-inside zero f = omega arith
total-inside (suc n) f = omega (arith, total-inside n f)

-- A thread that is not inside and has not left its loop has a round to go.
waiting_rest : (p : Pc) → IsWithin p → p ≢ at rounds → inside p ≡ 0 → 0 < rest p
waiting_rest (at i) w busy out = ground (arith, w)
waiting_rest (entered i) w busy out = absurd (omega arith)
waiting_rest (left i) w busy out = absurd (omega arith)

inside_busy : (p : Pc) → 0 < inside p → p ≢ at rounds
inside_busy (at i) h e = absurd (omega arith)
inside_busy (entered i) h e = cc
inside_busy (left i) h e = cc

module _ (N : ℕ) {s : System} (inv : Inv N N s) (w : Within N N s) where
  -- Nobody is inside, and all semaphores are at rest.
  record Resting : Type 0 where
    producers_out : total inside N s.ps ≡ 0
    consumers_out : total inside N s.cs ≡ 0

  balanced :
      Resting
      → (s.empty_slots + s.full_slots ≡ 5)
        × (s.full_slots + s.sh.total_consumed ≡ s.sh.total_produced)
  balanced q =
      let a = total-inside N s.ps in
      let b = total-inside N s.cs in
      (
        omega (arith, a, b, q.producers_out, q.consumers_out, inv.slots, inv.filled),
        omega (arith, a, b, q.producers_out, q.consumers_out, inv.slots, inv.filled),
      )

  joined_counts : (f : ℕ → Pc) → ((t : ℕ) → t < N → f t ≡ at rounds) → total sections N f ≡ N * 10
  joined_counts f all = total_const sections N 10 f (λ t lt. ap sections (all t lt))

  producer_waits : Resting → (t : ℕ) → t < N → s.ps t ≢ at rounds → (s' : System) × Step N N s s'
  producer_waits q t lt busy = elim (dec_lt 0 s.empty_slots) [
    | yes free ↦ producer_moves N N s t (s.ps t) lt refl (w.producers t) busy (inl free)
    | no none_free ↦ elim (find_ne Pc-discrete (at rounds) s.cs N) [
      | inl (u, lu, more) ↦
          consumer_moves N N s u (s.cs u) lu refl (w.consumers u) more
            (inl (omega (arith, (balanced q).0)))
      | inr all ↦ absurd (
          omega (
            arith,
            balanced q,
            joined_counts s.cs all,
            inv.consumed,
            inv.produced,
            sections-rest N s.ps w.producers,
          ))
    ]
  ]

  consumer_waits :
      Resting
      → ((t : ℕ) → t < N → s.ps t ≡ at rounds)
      → (t : ℕ) → t < N
      → s.cs t ≢ at rounds
      → (s' : System) × Step N N s s'
  consumer_waits q all t lt busy = elim (dec_lt 0 s.full_slots) [
    | yes free ↦ consumer_moves N N s t (s.cs t) lt refl (w.consumers t) busy (inl free)
    | no none_full ↦ absurd (
        omega (
          arith,
          balanced q,
          joined_counts s.ps all,
          inv.consumed,
          inv.produced,
          sections-rest N s.cs w.consumers,
          le-total rest N s.cs t lt,
          waiting_rest (s.cs t) (w.consumers t) busy
              (omega (arith, le-total inside N s.cs t lt, q.consumers_out)),
        ))
  ]

  rests : Resting → Joined N N s ⊎ ((s' : System) × Step N N s s')
  rests q = elim (find_ne Pc-discrete (at rounds) s.ps N) [
    | inl (t, lt, busy) ↦ inr (producer_waits q t lt busy)
    | inr all ↦ elim (find_ne Pc-discrete (at rounds) s.cs N) [
      | inl (t, lt, busy) ↦ inr (consumer_waits q all t lt busy)
      | inr both ↦ inl (all, both)
    ]
  ]

  returned_or_moves : Joined N N s ⊎ ((s' : System) × Step N N s s')
  returned_or_moves = elim (dec_lt 0 (total inside N s.ps)) [
    | yes h ↦
        let (t, lt, here_inside) = total_pos inside N s.ps h in
        inr (
          producer_moves N N s t (s.ps t) lt refl (w.producers t) (inside_busy (s.ps t) here_inside)
            (inr here_inside))
    | no out ↦ elim (dec_lt 0 (total inside N s.cs)) [
      | yes h ↦
          let (t, lt, here_inside) = total_pos inside N s.cs h in
          inr (
            consumer_moves N N s t (s.cs t) lt refl (w.consumers t)
              (inside_busy (s.cs t) here_inside) (inr here_inside))
      | no gone ↦ rests (record { producers_out = omega arith; consumers_out = omega arith })
    ]
  ]

-- With as many producers as consumers no run is longer than three steps for each round of each thread; and where
-- no thread can go on, all have returned, and 0, 1, …, 10 * N - 1 is printed.
pub semaphores_complete :
    (N : ℕ) {s : System} (r : Star (Step N N) init s)
    → (steps r ≤ 60 * N)
      × ((Joined N N s × (s.log ≡ numbers (10 * N))) ⊎ ((s' : System) × Step N N s s'))
semaphores_complete N {s} r =
    let inv = Run-Inv N N r in
    let w = Run-Within N N r in
    (
      omega (arith, steps_bound N N r),
      elim (returned_or_moves N inv w) [
        | inl (ps_done, cs_done) ↦ inl (
          (ps_done, cs_done),
          inv.printed
              ∙ ap numbers (omega (arith, inv.consumed, joined_counts N inv w s.cs cs_done)),
        )
        | inr more ↦ inr more
      ],
    )
