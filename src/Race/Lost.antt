-- ===== src/Race/Lost.antt =====
-- An interleaving of `racy_inc` in which an update is lost.
use linux_page_cache_lab.Base.{
  ℕ, zero, suc, ◌+◌, ◌*◌, ◌≤◌, ◌≡◌, refl, arith, ltb, if◌then◌else◌, update, total, total_const,
  Star, here, next, Star-trans,
}
use linux_page_cache_lab.Race.{at, loaded, System, init, RacyStep, load, store, Joined}
use linux_page_cache_lab.Race.Advance.{advance_all}

-- Threads 0 and 1 have completed a round each, the others none.
abbrev one_each : ℕ → ℕ
one_each u = if ltb u 2 then 1 else 0

total-one_each : (T : ℕ) → 2 ≤ T → total (λ x. x) T one_each ≡ 2
unfolding total
total-one_each (suc (suc zero)) h = refl
total-one_each (suc (suc (suc k))) h = ground (arith, total-one_each (suc (suc k)) (omega arith))
total-one_each _ h = absurd (omega arith)

-- Threads 0 and 1 have read 0, and both have written 1.
abbrev collided : System
collided = record {
  counter = 1;
  pc =
      update (update (update (update (λ _. at 0) 0 (loaded 0 0)) 1 (loaded 0 0)) 0 (at 1)) 1 (at 1);
}

collided_run : (n T : ℕ) → 2 ≤ T → 1 ≤ n → Star (RacyStep n T) init collided
collided_run n T two one =
    next
      (next
        (next (next here (load 0 0 (omega arith) refl (omega arith)))
          (load 1 0 (omega arith) (ground arith) (omega arith)))
        (store 0 0 0 (omega arith) (ground arith)))
      (store 1 0 0 (omega arith) (ground arith))

-- With two threads or more and a round or more, some run of `racy_inc` loses an update: all threads
-- return, and the counter is one less than `n * T`.
pub racy_loses :
    (n T : ℕ)
    → 2 ≤ T
    → 1 ≤ n
    → (s : System) × Star (RacyStep n T) init s × Joined n T s × (s.counter + 1 ≡ T * n)
racy_loses n T two one =
    let a =
      advance_all n T one_each (λ u. n) T collided (omega arith) (λ u. ground arith)
        (λ u. omega arith) (λ u h. ground arith) in
    (
      a.last,
      Star-trans (collided_run n T two one) a.run,
      a.done,
      omega
          (arith, a.counted, total-one_each T two, total_const (λ x. x) T n (λ u. n) (λ k h. refl)),
    )
