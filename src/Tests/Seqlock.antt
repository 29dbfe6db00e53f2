-- ===== src/Tests/Seqlock.antt =====
-- Instances of the theorems on the time stamp under a sequence counter.
use linux_page_cache_lab.Base.{ℕ, zero, suc, ◌+◌, ◌≤◌, ◌<◌, ◌≡◌, refl, arith, none}
use linux_page_cache_lab.RwLock.Seqlock.{after, read_clock, seen}
use linux_page_cache_lab.RwLock.Torn.{whole_read, settled_read, torn_read}

-- The values of the program, which writes once.
abbrev program_secs : ℕ → ℕ
program_secs q = 1700000000 + q

abbrev program_nsecs : ℕ → ℕ
program_nsecs zero = 123456789
program_nsecs (suc q) = 987654321

-- The write begins right after the first round of the reader.
abbrev late_stage : ℕ → ℕ
late_stage zero = 0
late_stage (suc zero) = 0
late_stage (suc (suc zero)) = 0
late_stage (suc (suc (suc zero))) = 0
late_stage _ = 1

whole_read_example : (q : ℕ) × (1700000000 ≡ program_secs q) × (123456789 ≡ program_nsecs q)
unfolding read_clock after
whole_read_example = whole_read program_secs program_nsecs late_stage rises bound 1 refl
  where
    rises : (k : ℕ) → late_stage k ≤ late_stage (k + 1)
    rises zero = omega arith
    rises (suc zero) = omega arith
    rises (suc (suc zero)) = omega arith
    rises (suc (suc (suc zero))) = omega arith
    rises (suc (suc (suc (suc k)))) = grind arith

    bound : (k : ℕ) → late_stage k < 4294967296
    bound zero = omega arith
    bound (suc zero) = omega arith
    bound (suc (suc zero)) = omega arith
    bound (suc (suc (suc zero))) = omega arith
    bound (suc (suc (suc (suc k)))) = grind arith

settled_read_example :
    read_clock (λ k. after program_secs program_nsecs 4) 1 0 none 0 ≡ seen 1700000001 987654321 0
settled_read_example = settled_read program_secs program_nsecs 1 0 (omega arith)

torn_read_example :
    (s : ℕ → ℕ) × ((k : ℕ) → s k ≤ s (k + 1))
    × (read_clock (λ k. after program_secs program_nsecs (s k)) 2 0 none 0
        ≡ seen 1700000000 987654321 1)
torn_read_example = torn_read program_secs program_nsecs
