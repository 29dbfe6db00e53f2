-- ===== src/Increment/Progress.antt =====
-- No deadlock, and a bound on the length of every run.
use linux_page_cache_lab.Base.{
  ℕ, ◌+◌, ◌-◌, ◌*◌, ◌≤◌, ◌<◌, ◌≡◌, refl, sym, ap, ◌≢◌, inl, inr, ◌⊎◌, zero, suc, Option, none, some,
  arith, update, total, total-update, total_const, Star, here, next, Star-keeps, steps,
  Option-cases, find_ne,
}
use mathlib.Core.Logic.{dite}
use mathlib.Core.Path.{subst}
use native.Mathlib.Decide.{ℕ_discrete}
use linux_page_cache_lab.Increment.{
  Worker, Shared, Pc, at, holding, loaded, stored, System, lock_at, Move, lock, load, store, unlock,
  Step, pick, init, Joined, hits,
}
use linux_page_cache_lab.Increment.Invariant.{joined_exact}

Pc-discrete : Discrete Pc
Pc-discrete = hlevel ℕ_discrete

module _ (w : Worker) where
  -- The lock that a thread owns.
  abbrev pub held : Pc → Option ℕ
  held (at i) = none
  held (holding i) = some (lock_at w i)
  held (loaded i v) = some (lock_at w i)
  held (stored i) = some (lock_at w i)

  -- The shared accesses that a thread has still to make.
  abbrev pub left : Pc → ℕ
  left (at i) = 4 * (w.iters - i)
  left (holding i) = 4 * (w.iters - i) - 1
  left (loaded i v) = 4 * (w.iters - i) - 2
  left (stored i) = 4 * (w.iters - i) - 3

  -- The rounds stay in range.
  abbrev pub InRange : Pc → Type 0
  InRange (at i) = i ≤ w.iters
  InRange (holding i) = i < w.iters
  InRange (loaded i v) = i < w.iters
  InRange (stored i) = i < w.iters

  Move-InRange : {t : ℕ} {m m' : Shared} {p p' : Pc} → Move w t m p m' p' → InRange p → InRange p'
  Move-InRange (lock more free) h = more
  Move-InRange load h = h
  Move-InRange store h = h
  Move-InRange unlock h = omega arith

  Move-left :
      {t : ℕ} {m m' : Shared} {p p' : Pc} → Move w t m p m' p' → InRange p → left p' < left p
  Move-left (lock more free) h = omega arith
  Move-left load h = omega arith
  Move-left store h = omega arith
  Move-left unlock h = omega arith

  -- A thread that owns a lock can always go on.
  owner_moves :
      (t : ℕ) (m : Shared) (p : Pc) (l : ℕ)
      → held p ≡ some l
      → (m' : Shared) × (p' : Pc) × Move w t m p m' p'
  owner_moves t m (at i) l h = absurd (cc)
  owner_moves t m (holding i) l h = (_, _, load)
  owner_moves t m (loaded i v) l h = (_, _, store)
  owner_moves t m (stored i) l h = (_, _, unlock)

  acquires :
      (t i : ℕ) (m : Shared) (p : Pc)
      → p ≡ at i
      → i < w.iters
      → m.locks (lock_at w i) ≡ none
      → (m' : Shared) × (p' : Pc) × Move w t m p m' p'
  acquires t i m p e more free =
      subst (λ p. (m' : Shared) × (p' : Pc) × Move w t m p m' p') (sym e) (_, _, lock more free)

  module _ (T : ℕ) where
    pub record Live (m : Shared) (pc : ℕ → Pc) : Type 0 where
      pub owned : (l t : ℕ) → m.locks l ≡ some t → held (pc t) ≡ some l
      pub inside : (l t : ℕ) → m.locks l ≡ some t → t < T
      pub ranges : (t : ℕ) → InRange (pc t)
      pub owns : (t l : ℕ) → held (pc t) ≡ some l → m.locks l ≡ some t

    module _ {m : Shared} {pc : ℕ → Pc} (inv : Live m pc) (t : ℕ) (lt : t < T) where
      open inv use {owned, inside, ranges, owns}

      Move-owned :
          {p p' : Pc} {m' : Shared}
          → pc t ≡ p
          → Move w t m p m' p'
          → (l u : ℕ) → m'.locks l ≡ some u
          → (held (update pc t p' u) ≡ some l) × (u < T)
      Move-owned e (lock {i} more free) l u h = ground (arith, owned l u, inside l u)
      Move-owned e (load {i}) l u h = ground (arith, owned l u, inside l u)
      Move-owned e (store {i} {v}) l u h = ground (arith, owned l u, inside l u)
      Move-owned e (unlock {i}) l u h = ground (arith, owned l u, inside l u)

      Move-owns :
          {p p' : Pc} {m' : Shared}
          → pc t ≡ p
          → Move w t m p m' p'
          → (u l : ℕ) → held (update pc t p' u) ≡ some l
          → m'.locks l ≡ some u
      Move-owns e (lock {i} more free) u l h = ground (arith, owns u l)
      Move-owns e (load {i}) u l h = ground (arith, owns u l, owns t (lock_at w i))
      Move-owns e (store {i} {v}) u l h = ground (arith, owns u l, owns t (lock_at w i))
      Move-owns e (unlock {i}) u l h = ground (arith, owns u l, owns t (lock_at w i))

      Move-ranges :
          {p p' : Pc} {m' : Shared}
          → pc t ≡ p
          → Move w t m p m' p'
          → (u : ℕ) → InRange (update pc t p' u)
      Move-ranges {p} {p'} e mv u =
          elim (ℕ_discrete t u) as (λ d. InRange (dite d (λ _. p') (λ _. pc u))) [
            | yes q ↦ Move-InRange mv (subst InRange e (ranges t))
            | no q ↦ ranges u
          ]

    Step-Live : (s s' : System) → Step w T s s' → Live s.sh s.pc → Live s'.sh s'.pc
    Step-Live s s' (pick t lt mv) inv = record {
      owned = λ l u h. (Move-owned inv t lt refl mv l u h).0;
      inside = λ l u h. (Move-owned inv t lt refl mv l u h).1;
      ranges = Move-ranges inv t lt refl mv;
      owns = Move-owns inv t lt refl mv;
    }

    Live-init : Live init.sh init.pc
    Live-init = record {
      owned = λ l t h. cc;
      inside = λ l t h. cc;
      ranges = λ t. omega arith;
      owns = λ t l h. cc;
    }

    pub Run-Live : {s : System} → Star (Step w T) init s → Live s.sh s.pc
    Run-Live r = Star-keeps (λ s. Live s.sh s.pc) Step-Live r Live-init

    at_moves :
        {s : System}
        → Live s.sh s.pc
        → (t i : ℕ) → t < T
        → s.pc t ≡ at i
        → i < w.iters
        → (s' : System) × Step w T s s'
    at_moves {s} inv t i lt e more = elim (Option-cases (s.sh.locks (lock_at w i))) [
      | inl free ↦ let (m', p', mv) = acquires t i s.sh (s.pc t) e more free in (_, pick t lt mv)
      | inr (u, taken) ↦
          let (m', p', mv) = owner_moves u s.sh (s.pc u) (lock_at w i) (inv.owned _ u taken) in
          (_, pick u (inv.inside _ u taken) mv)
    ]

    thread_moves :
        {s : System}
        → Live s.sh s.pc
        → (t : ℕ) → t < T
        → (p : Pc) → s.pc t ≡ p
        → p ≢ at w.iters
        → (s' : System) × Step w T s s'
    thread_moves inv t lt (at i) e h =
        let r = subst InRange e (inv.ranges t) in at_moves inv t i lt e (ground arith)
    thread_moves {s} inv t lt p e h =
        let (m', p', mv) = owner_moves t s.sh (s.pc t) _ (ap held e) in (_, pick t lt mv)

    -- No deadlock: while some thread has not left its loop, some thread can take a step.
    pub locks_progress :
        {s : System}
        → Star (Step w T) init s
        → (t : ℕ) → t < T
        → s.pc t ≢ at w.iters
        → (s' : System) × Step w T s s'
    locks_progress {s} r t lt h = thread_moves (Run-Live r) t lt (s.pc t) refl h

    -- Every run, whatever the schedule, has at most four steps for each round of each thread.
    pub lock_steps_bound :
        {s : System} (r : Star (Step w T) init s) → steps r + total left T s.pc ≤ T * (4 * w.iters)
    unfolding steps
    lock_steps_bound here =
        omega (arith, total_const left T (4 * w.iters) init.pc (λ i _. omega arith))
    lock_steps_bound (next {t = s} r (pick t {m} {p = p'} lt mv)) = omega (
      arith,
      lock_steps_bound r,
      total-update left T s.pc t p' lt,
      Move-left mv ((Run-Live r).ranges t),
    )

    complete_from :
        (fuel : ℕ) (s : System) (r : Star (Step w T) init s)
        → T * (4 * w.iters) < steps r + fuel
        → (s' : System) × Star (Step w T) init s' × Joined w T s'
    unfolding steps
    complete_from zero s r h = absurd (omega (arith, lock_steps_bound r))
    complete_from (suc fuel) s r h = elim (find_ne Pc-discrete (at w.iters) s.pc T) [
      | inl (t, lt, busy) ↦
          let (s', st) = locks_progress r t lt busy in
          complete_from fuel s' (next r st) (omega arith)
      | inr all ↦ (s, r, all)
    ]

    -- Some run brings every thread out of its loop.
    pub completes : (s : System) × Star (Step w T) init s × Joined w T s
    completes = complete_from (T * (4 * w.iters) + 1) init here (omega arith)

    -- A run of `T` threads has at most four steps for each round of each, whatever the schedule; and where no step is
    -- left, all threads have left their loops and each cell holds T times the rounds that increment it.
    pub locks_complete :
        {s : System} (r : Star (Step w T) init s)
        → (steps r ≤ T * (4 * w.iters))
          × ((Joined w T s × ((c : ℕ) → s.sh.mem c ≡ T * hits w.cell c w.iters))
              ⊎ ((s' : System) × Step w T s s'))
    locks_complete {s} r = (
      omega (arith, lock_steps_bound r),
      elim (find_ne Pc-discrete (at w.iters) s.pc T) [
        | inl (t, lt, busy) ↦ inr (locks_progress r t lt busy)
        | inr all ↦ inl (all, λ c. joined_exact w T r all c)
      ],
    )
