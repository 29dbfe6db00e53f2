-- ===== src/Tests/PageCacheRuns.antt =====
-- labs/page_cache_models.c on a file of 16384 bytes and four workers.
use text.Mathlib.Text.{◌==◌ as str_eq}
use Prim.Native.String.{String}
use linux_page_cache_lab.Base.{
  ℕ, zero, suc, ◌+◌, ◌*◌, ◌/◌, ◌%◌, ◌<◌, ◌≡◌, refl, arith, true, false, List, [], ◌∷◌, some, none,
  length, inr,
}
use linux_page_cache_lab.Base.Outcome.{ok, exit}
use linux_page_cache_lab.PageCache.{Kernel, WorkerResult, u64_mod}
use linux_page_cache_lab.PageCache.Sums.{pages, page_sum}
use linux_page_cache_lab.PageCache.Read.{read_range, read_loop, sample}
use linux_page_cache_lab.PageCache.Read.Full.{read_range_full}
use linux_page_cache_lab.PageCache.Read.Total.{OkOrFailed, read_range_total}
use linux_page_cache_lab.PageCache.Partition.{args, args_partition, Owns}
use linux_page_cache_lab.PageCache.Rounds.{
  Env, thread_round, process_round, thread_worker, join_threads, create_threads, child, message,
  fork_children, collect,
}
use linux_page_cache_lab.PageCache.Rounds.Agree.{IsProvided, process_round-thread_round}
use linux_page_cache_lab.PageCache.Rounds.Errors.{failed_worker}
use linux_page_cache_lab.PageCache.Rounds.Checksum.{IsServed, round_checksum}
use linux_page_cache_lab.PageCache.Main.{
  ℤ, pos, Config, IsInRange, parse_args, parse_args-IsInRange, configure, configure_counts, main,
}
use linux_page_cache_lab.PageCache.Main.Summaries.{IsWarm, AllSum, main_summaries}

abbrev bytes : ℕ → ℕ
bytes i = i / 4096 + 1

abbrev quiet : Kernel
quiet = record {
  opens = true;
  seeks = true;
  has_buffer = true;
  read = λ call pos chunk. some chunk;
  min0 = 5;
  maj0 = 0;
  min1 = 7;
  maj1 = 1;
}

abbrev served_env : Env
served_env = record {
  file = bytes;
  size = 16384;
  kernel = λ i. quiet;
  has_result = λ i. true;
  has_arrays = λ i. true;
  creates = λ i. true;
  has_pipes = true;
  pipes = λ p. true;
  forks = λ p. true;
  fdopens = λ p. true;
}

served_env-IsProvided : IsProvided served_env
served_env-IsProvided = record {
  has_arrays = λ p. refl;
  creates = λ p. refl;
  has_pipes = refl;
  pipes = λ p. refl;
  forks = λ p. refl;
  fdopens = λ p. refl;
}

served_env-IsServed : IsServed served_env
served_env-IsServed = record {
  provided = served_env-IsProvided;
  has_result = λ i. refl;
  opens = λ i. (refl, refl, refl);
  reads = λ i call pos chunk h. refl;
}

-- A worker's result: one page, whose number is its byte.
one_page : ℕ → WorkerResult
one_page i = record { minflt = 2; majflt = 1; checksum = i + 1 }

hybrid_run : process_round served_env 2 2 ≡ ok (record { minflt = 8; majflt = 4; checksum = 10 })
unfolding process_round fork_children collect message child create_threads join_threads
    thread_worker read_range read_loop sample args
hybrid_run = refl

read_range_full_example :
    read_range bytes quiet 4096 16384
    ≡ ok (record { minflt = 2; majflt = 1; checksum = page_sum bytes 4096 (pages 12288) % u64_mod })
read_range_full_example =
    read_range_full bytes quiet 16384 (λ call pos chunk h. refl) 4096 16384 (refl, refl, refl)
      (omega arith) (omega arith)

read_range_total_example : OkOrFailed (read_range bytes quiet 0 8192)
read_range_total_example = read_range_total bytes quiet 0 8192

args_partition_example : (i : ℕ) × Owns 100 3 i 99 × ((j : ℕ) → Owns 100 3 j 99 → j ≡ i)
args_partition_example = args_partition 100 3 99 (omega arith) (omega arith)

round_checksum_example :
    (t u : WorkerResult) × (thread_round served_env 4 ≡ ok t)
    × (process_round served_env 2 2 ≡ ok u)
    × (t.checksum ≡ page_sum bytes 0 4 % u64_mod)
    × (u.checksum ≡ page_sum bytes 0 4 % u64_mod)
round_checksum_example = round_checksum served_env 2 2 served_env-IsServed (omega arith) refl

every_worker : (i : ℕ) → i < 2 * 2 → thread_worker served_env 4 i ≡ ok (some (one_page i))
unfolding thread_worker one_page read_range read_loop sample args
every_worker zero h = refl
every_worker (suc zero) h = refl
every_worker (suc (suc zero)) h = refl
every_worker (suc (suc (suc zero))) h = refl
every_worker (suc (suc (suc (suc n)))) h = absurd (omega arith)

process_round-thread_round_example : process_round served_env 2 2 ≡ thread_round served_env 4
process_round-thread_round_example =
    process_round-thread_round served_env served_env-IsProvided 2 2 one_page every_worker

-- The second `read` of every worker fails.
abbrev failing_env : Env
failing_env = record served_env { kernel = λ i. record quiet { read = λ call pos chunk. none } }

failing_env-IsProvided : IsProvided failing_env
failing_env-IsProvided = record {
  has_arrays = λ p. refl;
  creates = λ p. refl;
  has_pipes = refl;
  pipes = λ p. refl;
  forks = λ p. refl;
  fdopens = λ p. refl;
}

failed_worker_example :
    (thread_round failing_env 4 ≡ exit 1)
    × ((t : WorkerResult) × (process_round failing_env 2 2 ≡ ok t))
unfolding thread_worker read_range read_loop args
failed_worker_example =
    failed_worker failing_env failing_env-IsProvided 2 2 1 (omega arith) (inr refl)

abbrev read_number : String → ℤ
read_number s = pos (if_two s)
  where
    if_two : String → ℕ
    if_two s = elim (str_eq s "2") [ true ↦ 2 | false ↦ 3 ]

abbrev hybrid_args : List String
hybrid_args = "testdata.bin" ∷ "hybrid" ∷ "2" ∷ "2" ∷ "3" ∷ []

abbrev hybrid : Config
hybrid = record {
  threaded = false;
  proc_count = 2;
  thread_count = 2;
  total_workers = 4;
  rounds = 3;
}

parse_args-IsInRange_example : IsInRange hybrid
unfolding parse_args configure configure_counts
parse_args-IsInRange_example = parse_args-IsInRange read_number hybrid_args refl

served_env-IsWarm : IsWarm (λ i. served_env) bytes 16384
served_env-IsWarm = record {
  served = λ i. served_env-IsServed;
  same_file = λ i. refl;
  same_size = λ i. refl;
}

main_summaries_example :
    (rs : List WorkerResult) × (main read_number (λ i. served_env) hybrid_args ≡ ok rs)
    × (length rs ≡ 3)
    × AllSum (page_sum bytes 0 4 % u64_mod) rs
unfolding parse_args configure configure_counts
main_summaries_example =
    main_summaries (λ i. served_env) bytes 16384 served_env-IsWarm read_number hybrid_args hybrid
      refl refl
