-- ===== src/BoundedBuffer/Progress.antt =====
-- What holds at every point of a run of labs/lab_22_condvar.c, and why it cannot get stuck.
use linux_page_cache_lab.Base.{
  ℕ, ◌+◌, ◌≤◌, ◌<◌, ◌≡◌, refl, ◌≢◌, ◌∙◌, ap, arith, Option-cases, inl, inr, ◌⊎◌, dec_lt, Star,
  numbers, find_ne, find_eq,
}
use linux_page_cache_lab.BoundedBuffer.{
  buf_size, n_items, produce, Consumed, waits, closed, got, consume, Producer, producing, blocked,
  returned, Consumer, consuming, sleeping, ended, System, init, Signal, nobody, one, Act,
  produce_waits, produces, finishes, consume_waits, consume_ends, consumes, Step,
}
use linux_page_cache_lab.BoundedBuffer.Invariant.{made, Inv, Run-Inv}

-- Every thread has returned.
abbrev pub AllReturned : ℕ → System → Type 0
AllReturned N s = (s.p ≡ returned) × ((k : ℕ) → k < N → s.cs k ≡ ended)

Consumer-discrete : Discrete Consumer
Consumer-discrete = hlevel

is_consuming : (c : Consumer) → c ≢ sleeping → c ≢ ended → c ≡ consuming
is_consuming consuming up busy = refl
is_consuming sleeping up busy = absurd (up refl)
is_consuming ended up busy = absurd (busy refl)

module _ (N : ℕ) (some_consumer : 0 < N) where
  -- With a consumer at least: at every point of every run what the consumers have printed is 0, 1, 2, …
  -- in order, and it is what the producer has made less what the buffer holds: no item is lost,
  -- duplicated or reordered. The buffer never holds more than 8.
  pub items_in_order :
      {s : System}
      → Star (Step N) init s
      → (n : ℕ) × (s.log ≡ numbers n) × (n + s.m.count ≡ made s.p) × (s.m.count ≤ buf_size)
  items_in_order r =
      let v = Run-Inv N some_consumer r in (v.first, v.printed, v.counted, v.holds.fits)

  some-Signal : (cs : ℕ → Consumer) → (cs' : ℕ → Consumer) × Signal N cs cs'
  some-Signal cs = elim (find_eq Consumer-discrete sleeping cs N) [
    | inl (k, lt, e) ↦ (_, one k lt e)
    | inr none_there ↦ (_, nobody none_there)
  ]

  consumer_acts :
      (s : System) (k : ℕ)
      → k < N
      → s.cs k ≡ consuming
      → (c : Consumed) → consume s.m ≡ c
      → (t : System) × Act N s t
  consumer_acts s k lt e waits h = (_, consume_waits k lt e h)
  consumer_acts s k lt e closed h = (_, consume_ends k lt e h)
  consumer_acts s k lt e (got val m) h = (_, consumes k val lt e h)

  producer_acts : (s : System) (i : ℕ) → s.p ≡ producing i → i ≤ n_items → (t : System) × Act N s t
  producer_acts s i e le = elim (dec_lt i n_items) [
    | no last ↦ (_, finishes (e ∙ ap producing (omega arith)))
    | yes lt ↦ elim (Option-cases (produce s.m i)) [
      | inl full ↦ (_, produce_waits i e lt full)
      | inr (m, put) ↦ let (cs, sig) = some-Signal s.cs in (_, produces i e lt put sig)
    ]
  ]

  -- A consumer that is neither asleep nor returned can act.
  awake_acts :
      (s : System) (k : ℕ) → k < N → s.cs k ≢ sleeping → s.cs k ≢ ended → (t : System) × Act N s t
  awake_acts s k lt up busy =
      consumer_acts s k lt (is_consuming (s.cs k) up busy) (consume s.m) refl

  -- No deadlock, with a consumer at least: in every reachable state all threads have returned, or some thread can take its
  -- critical section, with no need of a spurious wake-up.
  pub no_deadlock :
      {s : System} → Star (Step N) init s → AllReturned N s ⊎ ((t : System) × Act N s t)
  no_deadlock {s} r = go (Run-Inv N some_consumer r) s.p refl
    where
      go : Inv N s → (p : Producer) → s.p ≡ p → AllReturned N s ⊎ ((t : System) × Act N s t)
      go v (producing i) e = inr (producer_acts s i e (omega (arith, v.within, ap made e)))
      go v (blocked i) e = elim (find_ne Consumer-discrete sleeping s.cs N) [
        | inl (k, lt, up) ↦
            inr (awake_acts s k lt up (λ h. absurd (omega (arith, v.full i e, (v.drained k h).1))))
        | inr all ↦ absurd (omega (arith, v.full i e, v.starved all))
      ]
      go v returned e = elim (find_ne Consumer-discrete ended s.cs N) [
        | inl (k, lt, busy) ↦ inr (
            awake_acts s k lt (λ h. absurd (ground (arith, v.open_while k h, v.closed_when.1 e)))
              busy)
        | inr all ↦ inl (e, all)
      ]
