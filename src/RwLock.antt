-- ===== src/RwLock.antt =====
-- labs/lab_21_lock_variations.c, phase 1: readers and writers of `shared_data` under a read-write lock. The lock is
-- the library's: it admits a reader if no writer holds it, and a writer if nobody does.
pub mod Exclusion
pub mod Complete
pub mod Seqlock
pub mod Torn
pub mod Trylock
use linux_page_cache_lab.Base.{ℕ, ◌+◌, ◌-◌, ◌<◌, ◌≡◌, Bool, true, false, update}

-- A reader in round `i` with the sum `s`, outside and inside the lock.
pub data Reader : Type 0 where
  out : (i s : ℕ) → Reader
  reading : (i s : ℕ) → Reader

-- A writer in round `i`: outside, inside, and between the load and the store of `shared_data++`.
pub data Writer : Type 0 where
  out : (i : ℕ) → Writer
  locked : (i : ℕ) → Writer
  loaded : (i value : ℕ) → Writer

pub record System : Type 0 where
  pub n_reading : ℕ
  pub writing : Bool
  pub shared_data : ℕ
  pub readers : ℕ → Reader
  pub writers : ℕ → Writer

abbrev pub init : System
init = record {
  n_reading = 0;
  writing = false;
  shared_data = 0;
  readers = λ t. Reader.out 0 0;
  writers = λ t. Writer.out 0;
}

abbrev pub iters : ℕ
iters = 500000

-- R readers of `reads` rounds and W writers of `writes` rounds.
pub data Step (R W reads writes : ℕ) (s : System) : System → Type 0 where
  rdlock :
      (t i sum : ℕ)
      → t < R
      → i < reads
      → s.readers t ≡ Reader.out i sum
      → s.writing ≡ false
      → Step R W reads writes s (record s {
        n_reading = s.n_reading + 1;
        readers = update s.readers t (Reader.reading i sum);
      })
  rdunlock :
      (t i sum : ℕ)
      → t < R
      → s.readers t ≡ Reader.reading i sum
      → Step R W reads writes s (record s {
        n_reading = s.n_reading - 1;
        readers = update s.readers t (Reader.out (i + 1) (sum + s.shared_data));
      })
  wrlock :
      (t i : ℕ)
      → t < W
      → i < writes
      → s.writers t ≡ Writer.out i
      → s.writing ≡ false
      → s.n_reading ≡ 0
      → Step R W reads writes s
          (record s { writing = true; writers = update s.writers t (Writer.locked i) })
  load :
      (t i : ℕ)
      → t < W
      → s.writers t ≡ Writer.locked i
      → Step R W reads writes s
          (record s { writers = update s.writers t (Writer.loaded i s.shared_data) })
  store_unlock :
      (t i value : ℕ)
      → t < W
      → s.writers t ≡ Writer.loaded i value
      → Step R W reads writes s (record s {
        writing = false;
        shared_data = value + 1;
        writers = update s.writers t (Writer.out (i + 1));
      })

abbrev pub reads_now : Reader → ℕ
reads_now (Reader.out i s) = 0
reads_now (Reader.reading i s) = 1

abbrev pub writes_now : Writer → ℕ
writes_now (Writer.out i) = 0
writes_now (Writer.locked i) = 1
writes_now (Writer.loaded i value) = 1

abbrev pub stores_done : Writer → ℕ
stores_done (Writer.out i) = i
stores_done (Writer.locked i) = i
stores_done (Writer.loaded i value) = i
