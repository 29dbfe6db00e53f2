-- ===== src/Race/Atomic.antt =====
-- Bounds on both counters: no increment is invented, and the atomic ones are all there.
use linux_page_cache_lab.Base.{
  ℕ, ◌+◌, ◌*◌, ◌≤◌, ◌≡◌, refl, ap, arith, total, total-update, total_const, total-le, find_ne,
  ℕ_discrete, ◌⊎◌, inl, inr, Star, here, next, steps, Star-keeps,
}
use linux_page_cache_lab.Race.{
  Pc, at, loaded, System, init, RacyStep, SafeStep, load, store, fetch_add, Joined,
}

-- The rounds that a thread has completed.
abbrev pub rounds : Pc → ℕ
rounds (at i) = i
rounds (loaded i v) = i

Pc-discrete : Discrete Pc
Pc-discrete = hlevel ℕ_discrete

module _ (n T : ℕ) where
  -- The counter, and each value read and not yet written back, is at most the rounds completed.
  record Bounded (s : System) : Type 0 where
    counted : s.counter ≤ total rounds T s.pc
    read : (t i v : ℕ) → s.pc t ≡ loaded i v → v ≤ total rounds T s.pc

  RacyStep-Bounded : (s s' : System) → RacyStep n T s s' → Bounded s → Bounded s'
  RacyStep-Bounded s s' (load t i lt e more) b = record {
    counted = ground (arith, b.counted, total-update rounds T s.pc t (loaded i s.counter) lt);
    read = λ u j v h.
        ground
          (arith, b.counted, b.read u j v, total-update rounds T s.pc t (loaded i s.counter) lt);
  }
  RacyStep-Bounded s s' (store t i v lt e) b = record {
    counted = ground (arith, b.read t i v, total-update rounds T s.pc t (at (i + 1)) lt);
    read = λ u j x h. ground (arith, b.read u j x, total-update rounds T s.pc t (at (i + 1)) lt);
  }

  Bounded-init : Bounded init
  Bounded-init = record { counted = omega arith; read = λ t i v h. cc }

  joined_total : (s : System) → Joined n T s → total rounds T s.pc ≡ T * n
  joined_total s j = total_const rounds T n s.pc (λ t lt. ap rounds (j t lt))

  -- After the join the racy counter is at most `n * T`: the number of lost updates that the
  -- program prints is never negative.
  pub racy_bound : {s : System} → Star (RacyStep n T) init s → Joined n T s → s.counter ≤ T * n
  racy_bound {s} r j =
      omega (arith, (Star-keeps Bounded RacyStep-Bounded r Bounded-init).counted, joined_total s j)

  SafeStep-counts :
      (s s' : System)
      → SafeStep n T s s'
      → s.counter ≡ total rounds T s.pc
      → s'.counter ≡ total rounds T s'.pc
  SafeStep-counts s s' (fetch_add t i lt e more) c =
      ground (arith, total-update rounds T s.pc t (at (i + 1)) lt)

  safe_steps : {s : System} (r : Star (SafeStep n T) init s) → steps r ≡ total rounds T s.pc
  unfolding steps
  safe_steps here = omega (arith, total_const rounds T 0 init.pc (λ t lt. refl))
  safe_steps (next {t = s} r (fetch_add t i lt e more)) =
      ground (arith, safe_steps r, total-update rounds T s.pc t (at (i + 1)) lt)

  -- After the join the atomic counter is exactly `n * T`, whatever the schedule.
  pub safe_exact : {s : System} → Star (SafeStep n T) init s → Joined n T s → s.counter ≡ T * n
  safe_exact {s} r j = omega (
    arith,
    Star-keeps (λ s. s.counter ≡ total rounds T s.pc) SafeStep-counts r
        (omega (arith, total_const rounds T 0 init.pc (λ t lt. refl))),
    joined_total s j,
  )

  -- No thread of `safe_inc` is ever between a load and a store, or past its last round.
  IsIdle : System → Type 0
  IsIdle s = (t : ℕ) → (i : ℕ) × (s.pc t ≡ at i) × (i ≤ n)

  SafeStep-IsIdle : (s s' : System) → SafeStep n T s s' → IsIdle s → IsIdle s'
  unfolding IsIdle
  SafeStep-IsIdle s s' (fetch_add t i lt e more) idle u = elim (ℕ_discrete t u) [
    | yes same ↦ (i + 1, ground arith, omega arith)
    | no other ↦ let (j, at_j, small) = idle u in (j, ground arith, small)
  ]

  -- Whatever the schedule, a run of `T` threads that add atomically takes at most `n` steps for each, and where no step
  -- is left all have returned and the counter is exactly `T * n`.
  pub safe_complete :
      {s : System} (r : Star (SafeStep n T) init s)
      → (steps r ≤ T * n)
        × ((Joined n T s × (s.counter ≡ T * n)) ⊎ ((s' : System) × SafeStep n T s s'))
  unfolding IsIdle
  safe_complete {s} r =
      let idle = Star-keeps IsIdle SafeStep-IsIdle r (λ t. (0, refl, omega arith)) in
      (
        omega (
          arith,
          safe_steps r,
          total-le rounds T n s.pc
              (λ t lt. let (i, at_i, small) = idle t in omega (arith, ap rounds at_i)),
        ),
        elim (find_ne Pc-discrete (at n) s.pc T) [
          | inl (t, lt, busy) ↦
              let (i, at_i, small) = idle t in inr (_, fetch_add t i lt at_i (ground arith))
          | inr all ↦ inl (all, safe_exact r all)
        ],
      )
