-- ===== src/Futex.antt =====
-- Phase 1 of labs/lab_25_sync_primitives.c: a thread that sleeps on a futex until `futex_val` is not 0, and
-- `main`, which sets it and wakes one sleeper. `FUTEX_WAIT` sleeps only if the value is still the
-- expected one, as one atomic step; else it returns at once. It may also return spuriously.
use linux_page_cache_lab.Base.{
  ℕ, zero, suc, ◌+◌, ◌≤◌, ◌<◌, ◌≡◌, refl, ap, arith, ◌⊎◌, inl, inr, Star, Star-then, Star-keeps,
  steps, steps-le,
}

-- Where `sleeper` stands: at its test, before the system call, asleep in it, or returned.
pub data Sleeper : Type 0 where
  testing calling asleep returned : Sleeper

-- Where `main` stands: before `atomic_store`, before `futex_wake`, or in `pthread_join`.
pub data Main : Type 0 where
  storing waking joining : Main

pub data System : Type 0 where
  state : (futex_val : ℕ) (sleeper : Sleeper) (main : Main) → System

abbrev pub init : System
init = state 0 testing storing

-- `futex_wake(&futex_val, 1)`.
abbrev pub wake : Sleeper → Sleeper
wake testing = testing
wake calling = calling
wake asleep = testing
wake returned = returned

pub data Act : System → System → Type 0 where
  test_zero : {m : Main} → Act (state 0 testing m) (state 0 calling m)
  test_set : {v : ℕ} {m : Main} → Act (state (suc v) testing m) (state (suc v) returned m)
  wait_sleeps : {m : Main} → Act (state 0 calling m) (state 0 asleep m)
  wait_returns : {v : ℕ} {m : Main} → Act (state (suc v) calling m) (state (suc v) testing m)
  store : {v : ℕ} {p : Sleeper} → Act (state v p storing) (state 1 p waking)
  wake_one : {v : ℕ} {p : Sleeper} → Act (state v p waking) (state v (wake p) joining)

pub data Step : System → System → Type 0 where
  act : {s t : System} → Act s t → Step s t
  spurious : {v : ℕ} {m : Main} → Step (state v asleep m) (state v testing m)

-- Before the store the value is 0 and nobody has returned; after it the value is 1; and nobody
-- sleeps once the wake-up is done.
Allowed : System → Type 0
Allowed (state v returned storing) = ⊥
Allowed (state v p storing) = v ≡ 0
Allowed (state v p waking) = v ≡ 1
Allowed (state v asleep joining) = ⊥
Allowed (state v p joining) = v ≡ 1

Act-Allowed : (s t : System) → Act s t → Allowed s → Allowed t
unfolding Allowed
Act-Allowed _ _ (test_zero {m = storing}) h = h
Act-Allowed _ _ (test_zero {m = waking}) h = h
Act-Allowed _ _ (test_zero {m = joining}) h = h
Act-Allowed _ _ (test_set {v = v} {m = storing}) h = absurd (omega (arith, h))
Act-Allowed _ _ (test_set {v = v} {m = waking}) h = h
Act-Allowed _ _ (test_set {v = v} {m = joining}) h = h
Act-Allowed _ _ (wait_sleeps {m = storing}) h = h
Act-Allowed _ _ (wait_sleeps {m = waking}) h = h
Act-Allowed _ _ (wait_sleeps {m = joining}) h = absurd (omega (arith, h))
Act-Allowed _ _ (wait_returns {v = v} {m = storing}) h = h
Act-Allowed _ _ (wait_returns {v = v} {m = waking}) h = h
Act-Allowed _ _ (wait_returns {v = v} {m = joining}) h = h
Act-Allowed _ _ (store {v = v} {p = testing}) h = refl
Act-Allowed _ _ (store {v = v} {p = calling}) h = refl
Act-Allowed _ _ (store {v = v} {p = asleep}) h = refl
Act-Allowed _ _ (store {v = v} {p = returned}) h = refl
Act-Allowed _ _ (wake_one {v = v} {p = testing}) h = h
Act-Allowed _ _ (wake_one {v = v} {p = calling}) h = h
Act-Allowed _ _ (wake_one {v = v} {p = asleep}) h = h
Act-Allowed _ _ (wake_one {v = v} {p = returned}) h = h

Step-Allowed : (s t : System) → Step s t → Allowed s → Allowed t
unfolding Allowed
Step-Allowed s t (act a) h = Act-Allowed s t a h
Step-Allowed _ _ (spurious {v = v} {m = storing}) h = h
Step-Allowed _ _ (spurious {v = v} {m = waking}) h = h
Step-Allowed _ _ (spurious {v = v} {m = joining}) h = absurd h

Run-Allowed : {s : System} → Star Step init s → Allowed s
unfolding Allowed
Run-Allowed r = Star-keeps Allowed Step-Allowed r refl

acts : (s : System) → Allowed s → (s ≡ state 1 returned joining) ⊎ ((t : System) × Act s t)
unfolding Allowed
acts (state v p storing) h = inr (_, store)
acts (state v p waking) h = inr (_, wake_one)
acts (state zero testing joining) h = inr (_, test_zero)
acts (state (suc v) testing joining) h = inr (_, test_set)
acts (state zero calling joining) h = inr (_, wait_sleeps)
acts (state (suc v) calling joining) h = inr (_, wait_returns)
acts (state v asleep joining) h = absurd h
acts (state v returned joining) h = inl (ap (λ n. state n returned joining) h)

-- No wake-up is lost: in every reachable state either both threads have come to their end, with
-- the value 1, or one of them can take a step that is not a spurious return.
pub no_lost_wakeup :
    {s : System} → Star Step init s → (s ≡ state 1 returned joining) ⊎ ((t : System) × Act s t)
no_lost_wakeup {s} r = acts s (Run-Allowed r)

-- The sleeper returns only after the store: the value that it then prints is 1.
pub returned_after_store : {v : ℕ} {m : Main} → Star Step init (state v returned m) → v ≡ 1
unfolding Allowed
returned_after_store {v} {m} r = woken m (Run-Allowed r)
  where
    woken : (m : Main) → Allowed (state v returned m) → v ≡ 1
    woken storing h = absurd h
    woken waking h = h
    woken joining h = h

-- What is left to do: the sleeper's part depends on whether the value is set.
abbrev sleeper_left : ℕ → Sleeper → ℕ
sleeper_left zero testing = 2
sleeper_left zero calling = 1
sleeper_left (suc v) testing = 1
sleeper_left (suc v) calling = 2
sleeper_left v asleep = 0
sleeper_left v returned = 0

abbrev main_left : Main → ℕ
main_left storing = 6
main_left waking = 3
main_left joining = 0

acts_left : System → ℕ
acts_left (state v p m) = sleeper_left v p + main_left m

Act-left : (s t : System) → Act s t → acts_left t < acts_left s
unfolding acts_left
Act-left _ _ (test_zero {m = m}) = omega arith
Act-left _ _ (test_set {v = v} {m = m}) = omega arith
Act-left _ _ (wait_sleeps {m = m}) = omega arith
Act-left _ _ (wait_returns {v = v} {m = m}) = omega arith
Act-left _ _ (store {v = zero} {p = testing}) = omega arith
Act-left _ _ (store {v = zero} {p = calling}) = omega arith
Act-left _ _ (store {v = zero} {p = asleep}) = omega arith
Act-left _ _ (store {v = zero} {p = returned}) = omega arith
Act-left _ _ (store {v = suc v} {p = testing}) = omega arith
Act-left _ _ (store {v = suc v} {p = calling}) = omega arith
Act-left _ _ (store {v = suc v} {p = asleep}) = omega arith
Act-left _ _ (store {v = suc v} {p = returned}) = omega arith
Act-left _ _ (wake_one {v = zero} {p = testing}) = omega arith
Act-left _ _ (wake_one {v = zero} {p = calling}) = omega arith
Act-left _ _ (wake_one {v = zero} {p = asleep}) = omega arith
Act-left _ _ (wake_one {v = zero} {p = returned}) = omega arith
Act-left _ _ (wake_one {v = suc v} {p = testing}) = omega arith
Act-left _ _ (wake_one {v = suc v} {p = calling}) = omega arith
Act-left _ _ (wake_one {v = suc v} {p = asleep}) = omega arith
Act-left _ _ (wake_one {v = suc v} {p = returned}) = omega arith

acts_left_bound : (s : System) → acts_left s ≤ 8
unfolding acts_left
acts_left_bound (state v p m) = omega (arith, by_sleeper v p, by_main m)
  where
    by_sleeper : (v : ℕ) (p : Sleeper) → sleeper_left v p ≤ 2
    by_sleeper zero testing = omega arith
    by_sleeper zero calling = omega arith
    by_sleeper zero asleep = omega arith
    by_sleeper zero returned = omega arith
    by_sleeper (suc v) testing = omega arith
    by_sleeper (suc v) calling = omega arith
    by_sleeper (suc v) asleep = omega arith
    by_sleeper (suc v) returned = omega arith

    by_main : (m : Main) → main_left m ≤ 6
    by_main storing = omega arith
    by_main waking = omega arith
    by_main joining = omega arith

-- However a run has gone, from there on without spurious returns the two threads take at most 8 steps, and where
-- neither can take one both have come to their end, with the value 1.
pub futex_completes :
    {s u : System}
    → Star Step init s
    → (r : Star Act s u)
    → (steps r ≤ 8) × ((u ≡ state 1 returned joining) ⊎ ((t : System) × Act u t))
futex_completes {s} q r = (
  omega (arith, steps-le acts_left Act-left r, acts_left_bound s),
  no_lost_wakeup (Star-then (λ s t a. act a) q r),
)
