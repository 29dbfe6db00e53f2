-- ===== src/PageCache/Main/Summaries.antt =====
-- What the rounds of one run report.
use linux_page_cache_lab.Base.{
  ℕ, zero, suc, ◌+◌, ◌*◌, ◌/◌, ◌%◌, ◌≤◌, ◌<◌, ◌≡◌, refl, ◌∙◌, ap, sym, arith, Bool-cases, some,
  List, [], ◌∷◌, inl, inr, length,
}
use Prim.Native.String.{String}
use mathlib.Core.Path.{ap₂}
use linux_page_cache_lab.Base.Outcome.{ok}
use linux_page_cache_lab.PageCache.{u64_mod, WorkerResult}
use linux_page_cache_lab.PageCache.Sums.{pages, page_sum}
use linux_page_cache_lab.PageCache.Rounds.{Env}
use linux_page_cache_lab.PageCache.Rounds.Checksum.{IsServed, round_checksum}
use linux_page_cache_lab.PageCache.Main.{
  ℤ, Config, IsInRange, parse_args, parse_args-IsInRange, run_round, run_rounds, main,
}

-- Each of the summaries has the checksum `s`.
abbrev pub AllSum : ℕ → List WorkerResult → Type 0
AllSum s [] = Unit
AllSum s (r ∷ rs) = (r.checksum ≡ s) × AllSum s rs

-- Every round finds the same file and a system that serves it.
pub record IsWarm (env : ℕ → Env) (file : ℕ → ℕ) (size : ℕ) : Type 0 where
  pub served : (i : ℕ) → IsServed (env i)
  pub same_file : (i : ℕ) → (env i).file ≡ file
  pub same_size : (i : ℕ) → (env i).size ≡ size

product-pos : {p t : ℕ} → 1 ≤ p → 1 ≤ t → 0 < p * t
product-pos h k = grind arith

module _ (env : ℕ → Env) (file : ℕ → ℕ) (size : ℕ) (warm : IsWarm env file size) where
  abbrev expected : ℕ
  expected = page_sum file 0 (pages size) % u64_mod

  same_sum : (i : ℕ) → page_sum (env i).file 0 (pages (env i).size) % u64_mod ≡ expected
  same_sum i = ap₂ (λ f n. page_sum f 0 (pages n) % u64_mod) (warm.same_file i) (warm.same_size i)

  module _ (c : Config) (range : IsInRange c) (aligned : (size / c.total_workers) % 4096 ≡ 0) where
    run_round_ok :
        (i : ℕ) → (r : WorkerResult) × (run_round env c i ≡ ok r) × (r.checksum ≡ expected)
    unfolding run_round
    run_round_ok i =
        let P = c.proc_count in
        let C = c.thread_count in
        let e : (env i).size / (P * C) ≡ size / c.total_workers =
          ap₂ ◌/◌ (warm.same_size i) (sym range.product) in
        let (t, u, threads, procs, sum_t, sum_u) =
          round_checksum (env i) P C (warm.served i) (product-pos range.procs.0 range.threads.0)
            (ap (λ n. n % 4096) e ∙ aligned) in
        elim (Bool-cases c.threaded) [
          | inl yes_threads ↦ (t, ground arith, sum_t ∙ same_sum i)
          | inr processes ↦ (u, ground arith, sum_u ∙ same_sum i)
        ]

    run_rounds_ok :
        (n i : ℕ)
        → (rs : List WorkerResult) × (run_rounds env c n i ≡ ok rs)
          × (length rs ≡ n)
          × AllSum expected rs
    unfolding run_rounds
    run_rounds_ok zero i = ([], refl, refl, tt)
    run_rounds_ok (suc n) i =
        let (r, e, s) = run_round_ok i in
        let (rs, es, len, all) = run_rounds_ok n (i + 1) in
        (r ∷ rs, rw (e, es), ap suc len, (s, all))

  -- A run whose arguments are accepted, whose rounds find the same file and a system that serves them,
  -- and whose slices are multiples of 4096 ends well: it reports a summary for each round, all with
  -- the checksum of one sequential scan of the file, whatever the mode and the numbers of processes and threads.
  pub main_summaries :
      (strtol_int : String → ℤ) (argv : List String) (c : Config)
      → parse_args strtol_int argv ≡ some c
      → (size / c.total_workers) % 4096 ≡ 0
      → (rs : List WorkerResult) × (main strtol_int env argv ≡ ok rs)
        × (length rs ≡ c.rounds)
        × AllSum expected rs
  unfolding main
  main_summaries strtol_int argv c accepted aligned =
      let (rs, e, len, all) =
        run_rounds_ok c (parse_args-IsInRange strtol_int argv accepted) aligned c.rounds 1 in
      (rs, rw (accepted, main) e, len, all)
