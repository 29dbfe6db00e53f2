-- ===== src/Semaphores.antt =====
-- labs/lab_23_mpmc_semaphore.c: `P` producers and `C` consumers (two of each in `main`) over a buffer of 5
-- with two semaphores. The section under `buf_mtx` is one step; `stop` is never set.
pub mod Ring
pub mod Order
pub mod Refine
pub mod Complete
use linux_page_cache_lab.Base.{
  ℕ, zero, suc, ◌+◌, ◌-◌, ◌%◌, ◌<◌, ◌≡◌, List, [], ◌∷◌, ◌++◌, get_or, set, replicate, update,
}

-- `BUFSIZE`.
abbrev pub buf_size : ℕ
buf_size = 5

-- How many rounds a thread has.
abbrev pub rounds : ℕ
rounds = 10

-- The shared variables.
pub record Shared : Type 0 where
  pub buffer : List ℕ
  pub in_i : ℕ
  pub out_i : ℕ
  pub total_produced : ℕ
  pub total_consumed : ℕ

-- Where a thread stands in round `i`: before `sem_wait`, past it, or past its section and before `sem_post`.
pub data Pc : Type 0 where
  at entered left : (i : ℕ) → Pc

-- `log` is what the consumers print, in order.
pub record System : Type 0 where
  pub sh : Shared
  pub empty_slots : ℕ
  pub full_slots : ℕ
  pub ps : ℕ → Pc
  pub cs : ℕ → Pc
  pub log : List ℕ

abbrev pub init : System
init = record {
  sh = record {
    buffer = replicate 5 0;
    in_i = 0;
    out_i = 0;
    total_produced = 0;
    total_consumed = 0;
  };
  empty_slots = buf_size;
  full_slots = 0;
  ps = λ t. at 0;
  cs = λ t. at 0;
  log = [];
}

-- The section of `producer`.
unfoldable pub put : Shared → Shared
put sh = record sh {
  buffer = set sh.buffer sh.in_i sh.total_produced;
  in_i = (sh.in_i + 1) % buf_size;
  total_produced = sh.total_produced + 1;
}

-- The section of `consumer`, and the value that it prints.
unfoldable pub take : Shared → Shared
take sh = record sh { out_i = (sh.out_i + 1) % buf_size; total_consumed = sh.total_consumed + 1 }

abbrev pub taken : Shared → ℕ
taken sh = get_or sh.buffer sh.out_i 0

module _ (P C : ℕ) where
  pub data Step (s : System) : System → Type 0 where
    wait_empty :
        (t i e : ℕ)
        → t < P
        → s.ps t ≡ at i
        → i < rounds
        → s.empty_slots ≡ suc e
        → Step s (record s { empty_slots = e; ps = update s.ps t (entered i) })
    puts :
        (t i : ℕ)
        → t < P
        → s.ps t ≡ entered i
        → Step s (record s { sh = put s.sh; ps = update s.ps t (left i) })
    post_full :
        (t i : ℕ)
        → t < P
        → s.ps t ≡ left i
        → Step s (record s { full_slots = s.full_slots + 1; ps = update s.ps t (at (i + 1)) })
    wait_full :
        (t i e : ℕ)
        → t < C
        → s.cs t ≡ at i
        → i < rounds
        → s.full_slots ≡ suc e
        → Step s (record s { full_slots = e; cs = update s.cs t (entered i) })
    takes :
        (t i : ℕ)
        → t < C
        → s.cs t ≡ entered i
        → Step s (record s {
          sh = take s.sh;
          cs = update s.cs t (left i);
          log = s.log ++ (taken s.sh ∷ []);
        })
    post_empty :
        (t i : ℕ)
        → t < C
        → s.cs t ≡ left i
        → Step s (record s { empty_slots = s.empty_slots + 1; cs = update s.cs t (at (i + 1)) })
