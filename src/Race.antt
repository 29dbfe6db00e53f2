-- ===== src/Race.antt =====
-- labs/lab_18_concurrency.c: `T` threads each add 1 to a shared counter `n` times, by an ordinary
-- increment (a load and a store) or by an atomic one.
pub mod Publish
pub mod Atomic
pub mod Advance
pub mod Lost
pub mod Values
use linux_page_cache_lab.Base.{ℕ, ◌+◌, ◌<◌, ◌≡◌, update}

-- Where a thread stands in its loop: at its head with `i` rounds done, or between the load and the
-- store of `counter_racy++` with the value `v` read.
pub data Pc : Type 0 where
  at : (i : ℕ) → Pc
  loaded : (i : ℕ) → (v : ℕ) → Pc

pub record System : Type 0 where
  pub counter : ℕ
  pub pc : ℕ → Pc

abbrev pub init : System
init = record { counter = 0; pc = λ _. at 0 }

module _ (n T : ℕ) where
  -- A shared access of one of the threads that run `racy_inc`.
  pub data RacyStep (s : System) : System → Type 0 where
    load :
        (t i : ℕ)
        → t < T
        → s.pc t ≡ at i
        → i < n
        → RacyStep s (record s { pc = update s.pc t (loaded i s.counter) })
    store :
        (t i v : ℕ)
        → t < T
        → s.pc t ≡ loaded i v
        → RacyStep s (record { counter = v + 1; pc = update s.pc t (at (i + 1)) })

  -- `atomic_fetch_add(&counter_safe, 1)` in one of the threads that run `safe_inc`.
  pub data SafeStep (s : System) : System → Type 0 where
    fetch_add :
        (t i : ℕ)
        → t < T
        → s.pc t ≡ at i
        → i < n
        → SafeStep s (record { counter = s.counter + 1; pc = update s.pc t (at (i + 1)) })

  -- What `main` has waited for when `pthread_join` has returned for each thread.
  abbrev pub Joined : System → Type 0
  Joined s = (t : ℕ) → t < T → s.pc t ≡ at n
