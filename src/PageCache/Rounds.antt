-- ===== src/PageCache/Rounds.antt =====
-- One round of `main` of labs/page_cache_models.c, with threads or with processes.
-- A failed `calloc`, `pipe`, `fork`, `pthread_create` or `fdopen` makes `main` return 1; `exit(1)` in
-- a thread ends the process with the same status. In a child process both end the child alone.
pub mod Agree
pub mod Errors
pub mod Checksum
use linux_page_cache_lab.Base.{
  ℕ, zero, suc, ◌+◌, ◌*◌, ◌%◌, Bool, true, false, not, Option, none, some, if◌then◌else◌,
}
use linux_page_cache_lab.Base.Outcome.{Outcome, ok, exit, out_of_fuel, ◌>>=◌, ◌>>◌}
use linux_page_cache_lab.PageCache.{u64_mod, WorkerArg, WorkerResult, Kernel}
use linux_page_cache_lab.PageCache.Read.{read_range}
use linux_page_cache_lab.PageCache.Partition.{args}

-- What a round meets: the file, what each worker meets, and which allocations and calls succeed
-- (by worker, or by process).
pub record Env : Type 0 where
  pub file : ℕ → ℕ
  pub size : ℕ
  pub kernel : ℕ → Kernel
  pub has_result : ℕ → Bool
  pub has_arrays : ℕ → Bool
  pub creates : ℕ → Bool
  pub has_pipes : Bool
  pub pipes : ℕ → Bool
  pub forks : ℕ → Bool
  pub fdopens : ℕ → Bool

abbrev pub guard : Bool → Outcome (Unit {0})
guard true = ok tt
guard false = exit 1

-- The sums that both kinds of round keep; they start at `none_yet`.
abbrev pub none_yet : WorkerResult
none_yet = record { minflt = 0; majflt = 0; checksum = 0 }

abbrev pub add : WorkerResult → WorkerResult → WorkerResult
add a r = record {
  minflt = a.minflt + r.minflt;
  majflt = a.majflt + r.majflt;
  checksum = (a.checksum + r.checksum) % u64_mod;
}

module _ (env : Env) (total_workers : ℕ) where
  -- A thread's result; `none` is the NULL that it leaves when its `malloc` fails.
  unfoldable pub thread_worker : ℕ → Outcome (Option WorkerResult)
  thread_worker i =
      let wa = args env.size total_workers i in
      if env.has_result i
      then read_range env.file (env.kernel i) wa.start wa.end >>= (λ r. ok (some r))
      else ok none

  -- `pthread_create` for `n` workers from `i` on.
  unfoldable pub create_threads : (n i : ℕ) → Outcome (Unit {0})
  create_threads zero i = ok tt
  create_threads (suc n) i = guard (env.creates i) >> create_threads n (i + 1)

  -- `pthread_join` for `n` workers from `i` on, adding up their results.
  unfoldable pub join_threads : (n i : ℕ) → WorkerResult → Outcome WorkerResult
  join_threads zero i sums = ok sums
  join_threads (suc n) i sums = thread_worker i >>= λ res. elim res [
    | none ↦ exit 1
    | some r ↦ join_threads n (i + 1) (add sums r)
  ]

  -- A round in the modes `single` and `threads`.
  unfoldable pub thread_round : Outcome WorkerResult
  thread_round = do
    guard (env.has_arrays 0)
    create_threads total_workers 0
    join_threads total_workers 0 none_yet

-- A round in the modes `processes` and `hybrid`.
module _ (env : Env) (proc_count thread_count : ℕ) where
  -- What child `p` does before it writes its sums into its pipe.
  unfoldable pub child : ℕ → Outcome WorkerResult
  child p = do
    guard (env.has_arrays p)
    create_threads env (proc_count * thread_count) thread_count (p * thread_count)
    join_threads env (proc_count * thread_count) thread_count (p * thread_count) none_yet

  -- What the parent finds in pipe `p`: a child that has exited early has written nothing.
  unfoldable pub message : ℕ → Option WorkerResult
  message p = elim (child p) [ ok sums ↦ some sums | exit _ ↦ none | out_of_fuel ↦ none ]

  unfoldable pub fork_children : (n p : ℕ) → Outcome (Unit {0})
  fork_children zero p = ok tt
  fork_children (suc n) p = guard (env.pipes p) >> (guard (env.forks p) >> fork_children n (p + 1))

  -- `if (fscanf(...) == 4)`: a message is added, and a missing one is passed over.
  unfoldable pub collect : (n p : ℕ) → WorkerResult → Outcome WorkerResult
  collect zero p sums = ok sums
  collect (suc n) p sums =
      guard (env.fdopens p)
      >> collect n (p + 1) (elim (message p) [ none ↦ sums | some part ↦ add sums part ])

  unfoldable pub process_round : Outcome WorkerResult
  process_round = do guard env.has_pipes; fork_children proc_count 0; collect proc_count 0 none_yet
