-- ===== src/PageCache/Main.antt =====
-- `main` of labs/page_cache_models.c: its arguments, the choice of a mode, and the rounds.
-- `strtol_int` is `(int)strtol(s, NULL, 10)`.
pub mod Summaries
use text.Mathlib.Text.{◌==◌ as str_eq}
use Prim.Native.String.{String}
use linux_page_cache_lab.Base.{
  ℕ, zero, suc, ◌+◌, ◌*◌, ◌≤◌, ◌<◌, ◌≡◌, refl, arith, Bool, true, false, ◌||◌, Option, none, some,
  List, [], ◌∷◌, ltb, if◌then◌else◌, length,
}
use linux_page_cache_lab.Base.Outcome.{Outcome, ok, exit, ◌>>=◌}
use linux_page_cache_lab.PageCache.{WorkerResult}
use linux_page_cache_lab.PageCache.Rounds.{Env, thread_round, process_round}

-- `int`: `negsuc n` is -(n + 1).
pub data ℤ : Type 0 where
  pos : ℕ → ℤ
  negsuc : ℕ → ℤ

-- A count that passes the test `0 < n && n <= limit`.
abbrev pub count_upto : ℕ → ℤ → Option ℕ
count_upto limit (pos zero) = none
count_upto limit (pos (suc n)) = if ltb limit (suc n) then none else some (suc n)
count_upto limit (negsuc n) = none

abbrev pub positive : ℤ → Option ℕ
positive (pos zero) = none
positive (pos (suc n)) = some (suc n)
positive (negsuc n) = none

-- What `main` runs with: `threaded` chooses the kind of round.
pub record Config : Type 0 where
  pub threaded : Bool
  pub proc_count : ℕ
  pub thread_count : ℕ
  pub total_workers : ℕ
  pub rounds : ℕ

-- The chain of `strcmp(mode, ...)`.
unfoldable pub configure : String → (proc_count thread_count rounds : ℕ) → Option Config
configure mode p t r =
    if str_eq mode "single"
    then some (record {
      threaded = true;
      proc_count = 1;
      thread_count = 1;
      total_workers = 1;
      rounds = r;
    })
    else if str_eq mode "threads"
    then some (record {
      threaded = true;
      proc_count = 1;
      thread_count = t;
      total_workers = t;
      rounds = r;
    })
    else if str_eq mode "processes"
    then some (record {
      threaded = false;
      proc_count = p;
      thread_count = 1;
      total_workers = p;
      rounds = r;
    })
    else if str_eq mode "hybrid"
    then some (record {
      threaded = false;
      proc_count = p;
      thread_count = t;
      total_workers = p * t;
      rounds = r;
    })
    else none

-- The counts must have passed their tests.
unfoldable pub configure_counts : String → Option ℕ → Option ℕ → Option ℕ → Option Config
configure_counts mode (some p) (some t) (some r) = configure mode p t r
configure_counts mode _ _ _ = none

-- Between 1 and 2^20 workers, the product of the two counts; a threaded run has a single process.
pub record IsInRange (c : Config) : Type 0 where
  pub procs : (1 ≤ c.proc_count) × (c.proc_count ≤ 1024)
  pub threads : (1 ≤ c.thread_count) × (c.thread_count ≤ 1024)
  pub product : c.total_workers ≡ c.proc_count * c.thread_count
  pub workers : c.total_workers ≤ 1024 * 1024
  pub rounds_run : 1 ≤ c.rounds
  pub single_process : c.threaded ≡ true → c.proc_count ≡ 1

product-le : (p t : ℕ) → p ≤ 1024 → t ≤ 1024 → p * t ≤ 1024 * 1024
product-le p t h k = grind arith

configure-IsInRange :
    (mode : String) (p t r : ℕ) {c : Config}
    → (1 ≤ p) × (p ≤ 1024)
    → (1 ≤ t) × (t ≤ 1024)
    → 1 ≤ r
    → configure mode p t r ≡ some c
    → IsInRange c
unfolding configure
configure-IsInRange mode p t r hp ht hr e = ground (arith, product-le p t)

count_upto_bounds :
    (limit : ℕ) (z : ℤ) (n : ℕ) → count_upto limit z ≡ some n → (1 ≤ n) × (n ≤ limit)
count_upto_bounds limit (pos zero) n h = absurd (cc)
count_upto_bounds limit (pos (suc m)) n h = ground arith
count_upto_bounds limit (negsuc m) n h = absurd (cc)

positive_bounds : (z : ℤ) (n : ℕ) → positive z ≡ some n → 1 ≤ n
positive_bounds (pos zero) n h = absurd (cc)
positive_bounds (pos (suc m)) n h = ground arith
positive_bounds (negsuc m) n h = absurd (cc)

configure_counts-IsInRange :
    (mode : String) (p t r : Option ℕ) {c : Config}
    → ((n : ℕ) → p ≡ some n → (1 ≤ n) × (n ≤ 1024))
    → ((n : ℕ) → t ≡ some n → (1 ≤ n) × (n ≤ 1024))
    → ((n : ℕ) → r ≡ some n → 1 ≤ n)
    → configure_counts mode p t r ≡ some c
    → IsInRange c
unfolding configure_counts
configure_counts-IsInRange mode (some p) (some t) (some r) hp ht hr e =
    configure-IsInRange mode p t r (hp p refl) (ht t refl) (hr r refl) e
configure_counts-IsInRange mode _ _ _ hp ht hr e = absurd (cc)

module _ (strtol_int : String → ℤ) where
  -- The arguments after the program's name; `none` is `usage` and status 1.
  unfoldable pub parse_args : List String → Option Config
  parse_args (path ∷ mode ∷ procs ∷ threads ∷ rounds ∷ []) =
      configure_counts mode (count_upto 1024 (strtol_int procs))
        (count_upto 1024 (strtol_int threads)) (positive (strtol_int rounds))
  parse_args _ = none

  -- Every configuration that `main` accepts has between 1 and 1024 processes, between 1 and 1024 threads
  -- in each, their product as the number of workers (at most 2^20, so no `int` overflows), a round at
  -- least, and a single process where it is threaded.
  pub parse_args-IsInRange :
      (argv : List String) {c : Config} → parse_args argv ≡ some c → IsInRange c
  unfolding parse_args
  parse_args-IsInRange (path ∷ mode ∷ procs ∷ threads ∷ rounds ∷ []) h =
      configure_counts-IsInRange mode _ _ _ (count_upto_bounds 1024 (strtol_int procs))
        (count_upto_bounds 1024 (strtol_int threads)) (positive_bounds (strtol_int rounds)) h
  parse_args-IsInRange _ h = absurd (cc)

-- What one run prints in its rounds, or its exit status. A round may meet another system than the
-- one before it: `env` gives what round `i` meets.
module _ (env : ℕ → Env) (c : Config) where
  unfoldable pub run_round : ℕ → Outcome WorkerResult
  run_round i =
      if c.threaded
      then thread_round (env i) c.total_workers
      else process_round (env i) c.proc_count c.thread_count

  -- `for (round = 1; round <= rounds; round++)`: the summaries, or the first failure's status.
  unfoldable pub run_rounds : (n i : ℕ) → Outcome (List WorkerResult)
  run_rounds zero i = ok []
  run_rounds (suc n) i =
      run_round i >>= λ summary. run_rounds n (i + 1) >>= λ rest. ok (summary ∷ rest)

-- `main`: `usage` returns 1.
unfoldable pub main :
    (strtol_int : String → ℤ) → (ℕ → Env) → List String → Outcome (List WorkerResult)
main strtol_int env argv = elim (parse_args strtol_int argv) [
  | none ↦ exit 1
  | some c ↦ run_rounds env c c.rounds 1
]
