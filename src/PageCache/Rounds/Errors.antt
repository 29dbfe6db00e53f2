-- ===== src/PageCache/Rounds/Errors.antt =====
-- A failed worker in the two kinds of round.
use linux_page_cache_lab.Base.{
  ℕ, zero, suc, ◌+◌, ◌*◌, ◌≤◌, ◌<◌, ◌≡◌, refl, arith, Option, none, some, ◌⊎◌, inl, inr, ℕ_discrete,
}
use linux_page_cache_lab.Base.Outcome.{Outcome, ok, exit}
use linux_page_cache_lab.PageCache.{WorkerResult}
use linux_page_cache_lab.PageCache.Read.Total.{read_range_total}
use linux_page_cache_lab.PageCache.Partition.{args}
use linux_page_cache_lab.PageCache.Rounds.{
  Env, none_yet, add, thread_worker, join_threads, thread_round, collect, process_round,
}
use linux_page_cache_lab.PageCache.Rounds.Agree.{IsProvided, create_threads_ok, fork_children_ok}

-- A worker's `malloc` failed, or its `read_range` exited.
abbrev pub IsFailed : Outcome (Option WorkerResult) → Type 0
IsFailed m = (m ≡ ok none) ⊎ (m ≡ exit 1)

module _ (env : Env) where
  thread_worker_cases :
      (T i : ℕ)
      → ((r : WorkerResult) × (thread_worker env T i ≡ ok (some r)))
        ⊎ IsFailed (thread_worker env T i)
  unfolding thread_worker
  thread_worker_cases T i =
      let wa = args env.size T i in
      grind (arith, read_range_total env.file (env.kernel i) wa.start wa.end)

  join_threads_fails :
      (T n i j : ℕ) (sums : WorkerResult)
      → j ≤ i
      → i < j + n
      → IsFailed (thread_worker env T i)
      → join_threads env T n j sums ≡ exit 1
  unfolding join_threads
  join_threads_fails T zero i j sums lo hi bad = absurd (omega arith)
  join_threads_fails T (suc n) i j sums lo hi bad = elim (thread_worker_cases T j) [
    | inl (r, good) ↦ elim (ℕ_discrete i j) [
      | yes same ↦ absurd (ground arith)
      | no other ↦
          rw good (join_threads_fails T n i (j + 1) (add sums r) (omega arith) (omega arith) bad)
    ]
    | inr (inl null) ↦ rw null
    | inr (inr gone) ↦ rw gone
  ]

  module _ (given : IsProvided env) where
    thread_round_fails :
        (T i : ℕ) → i < T → IsFailed (thread_worker env T i) → thread_round env T ≡ exit 1
    unfolding thread_round
    thread_round_fails T i h bad = ground (
      arith,
      given.has_arrays 0,
      create_threads_ok env given T T 0,
      join_threads_fails T T i 0 none_yet (omega arith) (omega arith) bad,
    )

    collect_returns :
        (P C n p : ℕ) (sums : WorkerResult) → (t : WorkerResult) × (collect env P C n p sums ≡ ok t)
    unfolding collect
    collect_returns P C zero p sums = (sums, refl)
    collect_returns P C (suc n) p sums = rw (given.fdopens p) (collect_returns P C n (p + 1) _)

    -- When the system provides what a round itself asks for and a worker fails, a round of threads exits
    -- with status 1, while a round of processes over the same workers ends well.
    pub failed_worker :
        (P C i : ℕ)
        → i < P * C
        → IsFailed (thread_worker env (P * C) i)
        → (thread_round env (P * C) ≡ exit 1)
          × ((t : WorkerResult) × (process_round env P C ≡ ok t))
    unfolding process_round
    failed_worker P C i h bad =
        let (t, e) = collect_returns P C P 0 none_yet in
        (
          thread_round_fails (P * C) i h bad,
          (t, ground (arith, given.has_pipes, fork_children_ok env given P C P 0)),
        )
