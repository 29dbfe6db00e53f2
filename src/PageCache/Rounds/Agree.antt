-- ===== src/PageCache/Rounds/Agree.antt =====
-- A round of processes adds up what a round of threads does.
use linux_page_cache_lab.Base.{
  ℕ, zero, suc, ◌+◌, ◌*◌, ◌≤◌, ◌<◌, ◌≡◌, refl, ◌∙◌, ap, sym, arith, true, some,
}
use linux_page_cache_lab.Base.Outcome.{ok}
use linux_page_cache_lab.PageCache.{u64_mod, WorkerResult}
use linux_page_cache_lab.PageCache.Rounds.{
  Env, none_yet, add, thread_worker, create_threads, join_threads, thread_round, child, message,
  fork_children, collect, process_round,
}

-- The sum of the results of `n` workers from `i` on, added to `sums`.
unfoldable pub sum_results : (ℕ → WorkerResult) → (n i : ℕ) → WorkerResult → WorkerResult
sum_results res zero i sums = sums
sum_results res (suc n) i sums = sum_results res n (i + 1) (add sums (res i))

add_assoc : (a b c : WorkerResult) → add (add a b) c ≡ add a (add b c)
add_assoc a b c = ground arith

module _ (res : ℕ → WorkerResult) where
  sum_results-add :
      (n i : ℕ) (a b : WorkerResult) → sum_results res n i (add a b) ≡ add a (sum_results res n i b)
  unfolding sum_results
  sum_results-add zero i a b = refl
  sum_results-add (suc n) i a b =
      ap (sum_results res n (i + 1)) (add_assoc a b (res i))
      ∙ sum_results-add n (i + 1) a (add b (res i))

  sum_results-append :
      (m n k i : ℕ) (a : WorkerResult)
      → k ≡ m + n
      → sum_results res k i a ≡ sum_results res n (i + m) (sum_results res m i a)
  unfolding sum_results
  sum_results-append zero n k i a h = ground arith
  sum_results-append (suc m) n zero i a h = absurd (omega arith)
  sum_results-append (suc m) n (suc k) i a h =
      ground (arith, sum_results-append m n k (i + 1) (add a (res i)) (omega arith))

-- The system gives a round all that it asks for itself.
pub record IsProvided (env : Env) : Type 0 where
  pub has_arrays : (p : ℕ) → env.has_arrays p ≡ true
  pub creates : (i : ℕ) → env.creates i ≡ true
  pub has_pipes : env.has_pipes ≡ true
  pub pipes : (p : ℕ) → env.pipes p ≡ true
  pub forks : (p : ℕ) → env.forks p ≡ true
  pub fdopens : (p : ℕ) → env.fdopens p ≡ true

module _ (env : Env) (given : IsProvided env) where
  pub create_threads_ok : (T n i : ℕ) → create_threads env T n i ≡ ok tt
  unfolding create_threads
  create_threads_ok T zero i = refl
  create_threads_ok T (suc n) i = rw (given.creates i) (create_threads_ok T n (i + 1))

  pub fork_children_ok : (P T n p : ℕ) → fork_children env P T n p ≡ ok tt
  unfolding fork_children
  fork_children_ok P T zero p = refl
  fork_children_ok P T (suc n) p =
      rw (given.pipes p, given.forks p) (fork_children_ok P T n (p + 1))

  module _ (T : ℕ) (res : ℕ → WorkerResult)
      (good : (i : ℕ) → i < T → thread_worker env T i ≡ ok (some (res i))) where
    join_threads_ok :
        (n i : ℕ) (sums : WorkerResult)
        → i + n ≤ T
        → join_threads env T n i sums ≡ ok (sum_results res n i sums)
    unfolding join_threads sum_results
    join_threads_ok zero i sums h = refl
    join_threads_ok (suc n) i sums h =
        rw (good i (omega arith)) (join_threads_ok n (i + 1) (add sums (res i)) (omega arith))

    pub thread_round_ok : thread_round env T ≡ ok (sum_results res T 0 none_yet)
    unfolding thread_round
    thread_round_ok =
        rw (given.has_arrays 0, create_threads_ok T T 0)
          (join_threads_ok T 0 none_yet (omega arith))

  module _ (P C : ℕ) (res : ℕ → WorkerResult)
      (good : (i : ℕ) → i < P * C → thread_worker env (P * C) i ≡ ok (some (res i))) where
    part : ℕ → WorkerResult
    part p = sum_results res C (p * C) none_yet

    child_ok : (p : ℕ) → p < P → child env P C p ≡ ok (part p)
    unfolding child part
    child_ok p h = ground (
      arith,
      given.has_arrays p,
      create_threads_ok (P * C) C (p * C),
      join_threads_ok (P * C) res good C (p * C) none_yet (grind arith),
    )

    message_ok : (p : ℕ) → p < P → message env P C p ≡ some (part p)
    unfolding message
    message_ok p h = rw (child_ok p h, message)

    add-part :
        (p : ℕ) (sums : WorkerResult)
        → sums.checksum < u64_mod
        → add sums (part p) ≡ sum_results res C (p * C) sums
    unfolding part
    add-part p sums small =
        sym (sum_results-add res C (p * C) sums none_yet)
        ∙ ap (sum_results res C (p * C)) (ground arith)

    step :
        (n p : ℕ) (sums : WorkerResult)
        → sums.checksum < u64_mod
        → sum_results res (n * C) ((p + 1) * C) (add sums (part p))
          ≡ sum_results res (suc n * C) (p * C) sums
    step n p sums small =
        let e : (p + 1) * C ≡ p * C + C = omega arith in
        rw (add-part p sums small, e)
          (sym (sum_results-append res C (n * C) (suc n * C) (p * C) sums (omega arith)))

    collect_ok :
        (n p : ℕ) (sums : WorkerResult)
        → p + n ≤ P
        → sums.checksum < u64_mod
        → collect env P C n p sums ≡ ok (sum_results res (n * C) (p * C) sums)
    unfolding collect sum_results
    collect_ok zero p sums h small =
        let e : 0 ≡ 0 * C = omega arith in ap (λ k. ok (sum_results res k (p * C) sums)) e
    collect_ok (suc n) p sums h small =
        rw (given.fdopens p, message_ok p (omega arith))
          (collect_ok n (p + 1) (add sums (part p)) (omega arith) (omega arith)
            ∙ ap ok (step n p sums small))

    pub process_round_ok : process_round env P C ≡ ok (sum_results res (P * C) 0 none_yet)
    unfolding process_round
    process_round_ok = ground (
      arith,
      given.has_pipes,
      fork_children_ok P C P 0,
      collect_ok P 0 none_yet (omega arith) (omega arith),
    )

    -- When the system provides what the round itself asks for and no worker fails, a round of
    -- `P` processes with `C` threads each returns the same sums as a round of `P * C` threads.
    pub process_round-thread_round : process_round env P C ≡ thread_round env (P * C)
    process_round-thread_round = process_round_ok ∙ sym (thread_round_ok (P * C) res good)
