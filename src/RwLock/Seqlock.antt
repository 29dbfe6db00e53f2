-- ===== src/RwLock/Seqlock.antt =====
-- labs/lab_21_lock_variations.c, phase 4: the write and the retried read of a time stamp under a sequence counter.
-- The program writes once and then reads, in one thread; the loop is written for a reader beside a writer.
-- The memory at each of the reader's accesses is a parameter, so that a write may be under way meanwhile.
use linux_page_cache_lab.Base.{
  ℕ, zero, suc, ◌+◌, ◌%◌, ◌/◌, ◌^◌, true, false, Option, none, some, ◌==◌,
}

pub record Clock : Type 0 where
  pub seq : ℕ
  pub timestamp_sec : ℕ
  pub timestamp_nsec : ℕ

-- `seq++` of an `unsigned`.
abbrev pub bump : Clock → Clock
bump c = record c { seq = (c.seq + 1) % 2 ^ 32 }

-- The n-th store of a writer that writes the pairs of `secs` and `nsecs` at 1, 2, … one after the other: four stores for each.
abbrev pub store : (secs nsecs : ℕ → ℕ) (n : ℕ) → Clock → Clock
store secs nsecs n c = elim (n % 4) [
  | zero ↦ bump c
  | suc zero ↦ record c { timestamp_sec = secs (n / 4 + 1) }
  | suc (suc zero) ↦ record c { timestamp_nsec = nsecs (n / 4 + 1) }
  | _ ↦ bump c
]

-- The memory after n stores.
unfoldable pub after : (secs nsecs : ℕ → ℕ) (n : ℕ) → Clock
after secs nsecs zero = record { seq = 0; timestamp_sec = secs 0; timestamp_nsec = nsecs 0 }
after secs nsecs (suc n) = store secs nsecs n (after secs nsecs n)

-- What the last full round of the reader has read.
pub record Last : Type 0 where
  pub ts_sec : ℕ
  pub ts_nsec : ℕ
  pub s2 : ℕ

-- How the loop ends: with values, by a test of `s2` before any round has set it, or not within the fuel.
pub data Seen : Type 0 where
  seen : (sec nsec retries : ℕ) → Seen
  unset : Seen
  no_fuel : Seen

-- The `do` loop, with `k` accesses made before. `continue` goes on to the loop's test.
unfoldable pub read_clock :
    (mem : ℕ → Clock) (fuel k : ℕ) → (last : Option Last) → (retries : ℕ) → Seen
read_clock mem zero k last retries = no_fuel
read_clock mem (suc fuel) k last retries =
    let s1 = (mem k).seq in
    elim (s1 % 2 == 1) [
      | true ↦ elim last [
        | none ↦ unset
        | some l ↦ elim (s1 == l.s2) [
          | true ↦ seen l.ts_sec l.ts_nsec (retries + 1)
          | false ↦ read_clock mem fuel (k + 1) (some l) (retries + 1)
        ]
      ]
      | false ↦ elim (s1 == (mem (k + 3)).seq) [
        | true ↦ seen (mem (k + 1)).timestamp_sec (mem (k + 2)).timestamp_nsec retries
        | false ↦
            read_clock mem fuel (k + 4)
              (some record {
                ts_sec = (mem (k + 1)).timestamp_sec;
                ts_nsec = (mem (k + 2)).timestamp_nsec;
                s2 = (mem (k + 3)).seq;
              })
              retries
      ]
    ]
