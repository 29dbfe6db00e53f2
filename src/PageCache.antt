-- ===== src/PageCache.antt =====
-- labs/page_cache_models.c: workers read slices of one file through the page cache and add up a
-- byte of each page. The parts: how the file is split (Partition), the read loop (Read), what it
-- computes (Sums), a round of threads or of processes (Rounds), and `main` (Main).
pub mod Partition
pub mod Read
pub mod Rounds
pub mod Main
pub mod Sums
use linux_page_cache_lab.Base.{ℕ, ◌*◌, ◌^◌, Bool, Option}

-- `BUF_SIZE`.
abbrev pub buf_size : ℕ
buf_size = 1024 * 1024

-- `unsigned long long` wraps.
abbrev pub u64_mod : ℕ
u64_mod = 2 ^ 64

-- `worker_arg_t`; the path is the same for all workers, and is left out.
pub record WorkerArg : Type 0 where
  pub start : ℕ
  pub end : ℕ
  pub id : ℕ

-- `worker_result_t`, without the elapsed time.
pub record WorkerResult : Type 0 where
  pub minflt : ℕ
  pub majflt : ℕ
  pub checksum : ℕ

-- What one worker meets in the operating system: whether `open`, `lseek` and `malloc` succeed,
-- what its k-th `read` returns at an offset for a size (`none` is an error), and the fault
-- counters of `getrusage` before and after.
pub record Kernel : Type 0 where
  pub opens : Bool
  pub seeks : Bool
  pub has_buffer : Bool
  pub read : (call pos chunk : ℕ) → Option ℕ
  pub min0 : ℕ
  pub maj0 : ℕ
  pub min1 : ℕ
  pub maj1 : ℕ
