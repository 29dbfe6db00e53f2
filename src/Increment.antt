-- ===== src/Increment.antt =====
-- The counting workers of labs/lab_19_locking.c and labs/lab_20_finegrained_lock.c: threads that
-- take a lock, increment a cell of shared memory, and release the lock.
-- The locks are pthread mutexes and spin locks: an acquire waits until no thread owns the lock.
pub mod Invariant
pub mod Progress
pub mod Labs
use linux_page_cache_lab.Base.{
  ℕ, zero, suc, ◌+◌, ◌<◌, ◌≡◌, Option, none, some, ◌==◌, if◌then◌else◌, update,
}

-- What a worker's loop is made of: `for (i = 0; i < iters; i++)` with the cell that round `i`
-- increments, and the lock that it holds meanwhile.
pub record Worker : Type 0 where
  pub iters : ℕ
  pub cell : ℕ → ℕ
  pub lock_of : ℕ → ℕ

-- The lock words (the owner, if any) and the counters.
pub record Shared : Type 0 where
  pub locks : ℕ → Option ℕ
  pub mem : ℕ → ℕ

-- Where a thread stands in round `i`; `v` is the value that `counter++` has read.
pub data Pc : Type 0 where
  at : (i : ℕ) → Pc
  holding : (i : ℕ) → Pc
  loaded : (i : ℕ) → (v : ℕ) → Pc
  stored : (i : ℕ) → Pc

pub record System : Type 0 where
  pub sh : Shared
  pub pc : ℕ → Pc

module _ (w : Worker) where
  abbrev pub lock_at : ℕ → ℕ
  lock_at i = w.lock_of (w.cell i)

  -- One shared access of thread `t`.
  pub data Move (t : ℕ) (m : Shared) : Pc → Shared → Pc → Type 0 where
    lock :
        {i : ℕ}
        → i < w.iters
        → m.locks (lock_at i) ≡ none
        → Move t m (at i) (record m { locks = update m.locks (lock_at i) (some t) }) (holding i)
    load : {i : ℕ} → Move t m (holding i) m (loaded i (m.mem (w.cell i)))
    store :
        {i v : ℕ}
        → Move t m (loaded i v) (record m { mem = update m.mem (w.cell i) (v + 1) }) (stored i)
    unlock :
        {i : ℕ}
        → Move t m (stored i) (record m { locks = update m.locks (lock_at i) none }) (at (i + 1))

  -- `T` threads run the worker, interleaved in any order.
  pub data Step (T : ℕ) (s : System) : System → Type 0 where
    pick :
        (t : ℕ) {m : Shared} {p : Pc}
        → t < T
        → Move t s.sh (s.pc t) m p
        → Step T s (record { sh = m; pc = update s.pc t p })

-- All locks free, all counters 0, every thread at the head of its loop.
abbrev pub init : System
init = record { sh = record { locks = λ _. none; mem = λ _. 0 }; pc = λ _. at 0 }

-- Every thread has left its loop: what `main` sees after `pthread_join`.
abbrev pub Joined : Worker → ℕ → System → Type 0
Joined w T s = (t : ℕ) → t < T → s.pc t ≡ at w.iters

-- How many of the first `k` rounds increment the cell `c`.
unfoldable pub hits : (ℕ → ℕ) → ℕ → ℕ → ℕ
hits cell c zero = 0
hits cell c (suc k) = hits cell c k + (if cell k == c then 1 else 0)
