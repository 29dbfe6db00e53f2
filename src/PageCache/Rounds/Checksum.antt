-- ===== src/PageCache/Rounds/Checksum.antt =====
-- What the checksum of a round is, and when it does not depend on the number of workers.
use linux_page_cache_lab.Base.{
  ℕ, zero, suc, ◌+◌, ◌-◌, ◌*◌, ◌/◌, ◌%◌, ◌≤◌, ◌<◌, ◌≡◌, ◌∙◌, ap, arith, true, false, some, inr,
  ◌==◌,
}
use linux_page_cache_lab.Base.Outcome.{ok}
use linux_page_cache_lab.PageCache.{u64_mod, WorkerResult}
use linux_page_cache_lab.PageCache.Sums.{pages, page_sum, page_sum-split}
use linux_page_cache_lab.PageCache.Read.Full.{ReadsFully, AllOpen, read_range_full}
use linux_page_cache_lab.PageCache.Partition.{args, args_cover, slices_fit}
use linux_page_cache_lab.PageCache.Rounds.{
  Env, none_yet, add, thread_worker, thread_round, process_round,
}
use linux_page_cache_lab.PageCache.Rounds.Agree.{
  IsProvided, sum_results, thread_round_ok, process_round_ok,
}

-- Every worker's calls succeed, and each `read` inside the file fills its buffer.
pub record IsServed (env : Env) : Type 0 where
  pub provided : IsProvided env
  pub has_result : (i : ℕ) → env.has_result i ≡ true
  pub opens : (i : ℕ) → AllOpen (env.kernel i)
  pub reads : (i : ℕ) → ReadsFully (env.kernel i) env.size

module _ (env : Env) (served : IsServed env) (T : ℕ) (some_worker : 0 < T) where
  -- What worker `i` returns.
  result : ℕ → WorkerResult
  result i =
      let k = env.kernel i in
      let wa = args env.size T i in
      record {
        minflt = k.min1 - k.min0;
        majflt = k.maj1 - k.maj0;
        checksum = page_sum env.file wa.start (pages (wa.end - wa.start)) % u64_mod;
      }

  worker_ok : (i : ℕ) → i < T → thread_worker env T i ≡ ok (some (result i))
  unfolding thread_worker result
  worker_ok i h =
      let wa = args env.size T i in
      let fits = (args_cover env.size T i h).3 in
      let inside = (args_cover env.size T i h).4 in
      ground (
        arith,
        served.has_result i,
        read_range_full env.file (env.kernel i) env.size (served.reads i) wa.start wa.end
            (served.opens i) fits inside,
      )

  module _ (aligned : (env.size / T) % 4096 ≡ 0) where
    abbrev from : ℕ → ℕ
    from i = page_sum env.file (i * (env.size / T)) (pages (env.size - i * (env.size / T)))

    last_checksum : (i : ℕ) → i + 1 ≡ T → (result i).checksum ≡ from i % u64_mod
    unfolding result args
    last_checksum i h = ground arith

    checksum_step :
        (i : ℕ) → i + 1 < T → from i % u64_mod ≡ ((result i).checksum + from (i + 1)) % u64_mod
    unfolding result args
    checksum_step i h =
        let s = env.size / T in
        let fits : s ≤ env.size - i * s =
          omega (arith, slices_fit env.size T (i + 1) (omega arith)) in
        let split = page_sum-split env.file (i * s) (env.size - i * s) s fits (inr aligned) in
        let e : (i + 1) * s ≡ i * s + s = omega arith in
        let d : env.size - (i * s + s) ≡ env.size - i * s - s = omega arith in
        let w : i * s + s - i * s ≡ s = omega arith in
        let not_last : (i == T - 1) ≡ false = ground arith in
        rw (not_last, e, d, w) (omega (arith, split))

    -- The sums of the workers from `i` on are a byte of each page from where `i` starts.
    sums_from :
        (n i : ℕ) (sums : WorkerResult)
        → i + suc n ≡ T
        → (sum_results result (suc n) i sums).checksum ≡ (sums.checksum + from i) % u64_mod
    unfolding sum_results
    sums_from zero i sums h = omega (arith, last_checksum i (omega arith))
    sums_from (suc n) i sums h = omega (
      arith,
      sums_from n (i + 1) (add sums (result i)) (omega arith),
      checksum_step i (omega arith),
    )

    sums_all :
        (sum_results result T 0 none_yet).checksum ≡ page_sum env.file 0 (pages env.size) % u64_mod
    sums_all =
        let e : T ≡ suc (T - 1) = omega arith in
        ap (λ n. (sum_results result n 0 none_yet).checksum) e
        ∙ sums_from (T - 1) 0 none_yet (omega arith)
        ∙ ground arith

-- When every call succeeds, every `read` fills its buffer and the slices are multiples of 4096, the
-- checksum of a round is that of one sequential scan (the first byte of every 4096 of the file, modulo
-- 2^64), however many threads or processes share the work.
pub round_checksum :
    (env : Env) (P C : ℕ)
    → IsServed env
    → 0 < P * C
    → (env.size / (P * C)) % 4096 ≡ 0
    → (t u : WorkerResult) × (thread_round env (P * C) ≡ ok t)
      × (process_round env P C ≡ ok u)
      × (t.checksum ≡ page_sum env.file 0 (pages env.size) % u64_mod)
      × (u.checksum ≡ page_sum env.file 0 (pages env.size) % u64_mod)
round_checksum env P C served some_worker aligned =
    let res = result env served (P * C) some_worker in
    let good = worker_ok env served (P * C) some_worker in
    let same = sums_all env served (P * C) some_worker aligned in
    (
      sum_results res (P * C) 0 none_yet,
      sum_results res (P * C) 0 none_yet,
      thread_round_ok env served.provided (P * C) res good,
      process_round_ok env served.provided P C res good,
      same,
      same,
    )
