-- ===== src/RwLock/Torn.antt =====
-- What the retried reads of labs/lab_21_lock_variations.c see while a write is under way.
use linux_page_cache_lab.Base.{
  ℕ, zero, suc, ◌+◌, ◌*◌, ◌%◌, ◌/◌, ◌<◌, ◌≤◌, ◌≡◌, refl, arith, Option, none, some, ◌==◌,
  Bool-cases, inl, inr, ap, ◌∙◌,
}
use linux_page_cache_lab.RwLock.Seqlock.{Clock, Last, after, read_clock, seen}

seq_lem :
    (secs nsecs : ℕ → ℕ) (n : ℕ) → n < 4294967296 → (after secs nsecs n).seq ≡ (n + 3) / 4 + n / 4
unfolding after
seq_lem secs nsecs zero h = refl
seq_lem secs nsecs (suc n) h = grind (arith, seq_lem secs nsecs n)

sec_lem : (secs nsecs : ℕ → ℕ) (n : ℕ) → (after secs nsecs n).timestamp_sec ≡ secs ((n + 2) / 4)
unfolding after
sec_lem secs nsecs zero = refl
sec_lem secs nsecs (suc n) = grind (arith, sec_lem secs nsecs n)

nsec_lem : (secs nsecs : ℕ → ℕ) (n : ℕ) → (after secs nsecs n).timestamp_nsec ≡ nsecs ((n + 1) / 4)
unfolding after
nsec_lem secs nsecs zero = refl
nsec_lem secs nsecs (suc n) = grind (arith, nsec_lem secs nsecs n)

retries_grow :
    (mem : ℕ → Clock) (fuel k : ℕ) (last : Option Last) (r : ℕ) {a b t : ℕ}
    → read_clock mem fuel k last r ≡ seen a b t
    → r ≤ t
unfolding read_clock
retries_grow mem zero k last r h = grind arith
retries_grow mem (suc fuel) k none r h = grind (arith, retries_grow mem fuel)
retries_grow mem (suc fuel) k (some l) r h = grind (arith, retries_grow mem fuel)

-- A loop that counts no retry has taken its values in a round with one even counter before and after.
clean_round :
    (mem : ℕ → Clock) (fuel k : ℕ) (last : Option Last) {a b : ℕ}
    → read_clock mem fuel k last 0 ≡ seen a b 0
    → (j : ℕ) × ((mem j).seq % 2 ≡ 0)
      × ((mem j).seq ≡ (mem (j + 3)).seq)
      × (a ≡ (mem (j + 1)).timestamp_sec)
      × (b ≡ (mem (j + 2)).timestamp_nsec)
unfolding read_clock
clean_round mem zero k last h = grind arith
clean_round mem (suc fuel) k last h = elim (Bool-cases ((mem k).seq % 2 == 1)) [
  | inl odd ↦ grind (arith, retries_grow mem fuel)
  | inr even ↦ elim (Bool-cases ((mem k).seq == (mem (k + 3)).seq)) [
    | inl same ↦ (k, grind arith, grind arith, grind arith, grind arith)
    | inr other ↦
        clean_round mem fuel (k + 4)
          (some record {
            ts_sec = (mem (k + 1)).timestamp_sec;
            ts_nsec = (mem (k + 2)).timestamp_nsec;
            s2 = (mem (k + 3)).seq;
          })
          (grind arith)
  ]
]

-- Equal counters, with no write under way, say that the accesses between have met the same pairs.
same_pair :
    (n0 n1 n2 n3 : ℕ)
    → n0 ≤ n1
    → n1 ≤ n2
    → n2 ≤ n3
    → ((n0 + 3) / 4 + n0 / 4) % 2 ≡ 0
    → (n0 + 3) / 4 + n0 / 4 ≡ (n3 + 3) / 4 + n3 / 4
    → ((n1 + 2) / 4 ≡ n0 / 4) × ((n2 + 1) / 4 ≡ n0 / 4)
same_pair n0 n1 n2 n3 r0 r1 r2 even same = (omega arith, omega arith)

module _ (secs nsecs s : ℕ → ℕ) (rises : (k : ℕ) → s k ≤ s (k + 1))
    (bound : (k : ℕ) → s k < 4294967296) where
  by_two : (j : ℕ) → s (j + 1) ≤ s (j + 2)
  by_two j = grind (arith, rises (j + 1))

  by_three : (j : ℕ) → s (j + 2) ≤ s (j + 3)
  by_three j = grind (arith, rises (j + 2))

  -- If the reader's accesses meet the writer's stores in order, fewer than 2^32 of them, a read that ends with no
  -- retry counted gives a pair that was written together.
  pub whole_read :
      (fuel : ℕ) {a b : ℕ}
      → read_clock (λ k. after secs nsecs (s k)) fuel 0 none 0 ≡ seen a b 0
      → (q : ℕ) × (a ≡ secs q) × (b ≡ nsecs q)
  whole_read fuel h =
      let (j, even, same, sec, nsec) = clean_round (λ k. after secs nsecs (s k)) fuel 0 none h in
      let before = seq_lem secs nsecs (s j) (bound j) in
      let later = seq_lem secs nsecs (s (j + 3)) (bound (j + 3)) in
      let (at_sec, at_nsec) =
        same_pair (s j) (s (j + 1)) (s (j + 2)) (s (j + 3)) (rises j) (by_two j) (by_three j)
          (omega (arith, before, even)) (omega (arith, before, later, same)) in
      (
        s j / 4,
        sec ∙ sec_lem secs nsecs (s (j + 1)) ∙ ap secs at_sec,
        nsec ∙ nsec_lem secs nsecs (s (j + 2)) ∙ ap nsecs at_nsec,
      )

-- A read that no store disturbs, begun between two writes of which fewer than 2^30 have been made, ends in its
-- first round with the pair of the last write, and no retry.
pub settled_read :
    (secs nsecs : ℕ → ℕ) (q fuel : ℕ)
    → q * 4 < 4294967296
    → read_clock (λ k. after secs nsecs (q * 4)) (suc fuel) 0 none 0 ≡ seen (secs q) (nsecs q) 0
unfolding read_clock
settled_read secs nsecs q fuel h =
    grind
      (arith, seq_lem secs nsecs (q * 4), sec_lem secs nsecs (q * 4), nsec_lem secs nsecs (q * 4))

-- The first two accesses of the reader come before the write, and all others after three of its stores.
abbrev stage : ℕ → ℕ
stage zero = 0
stage (suc zero) = 0
stage _ = 3

-- Some order of a writer's stores among the reader's accesses makes the loop end in its second round, with one
-- retry counted, with the seconds from before the first write and the nanoseconds of that write.
pub torn_read :
    (secs nsecs : ℕ → ℕ)
    → (s : ℕ → ℕ) × ((k : ℕ) → s k ≤ s (k + 1))
      × (read_clock (λ k. after secs nsecs (s k)) 2 0 none 0 ≡ seen (secs 0) (nsecs 1) 1)
unfolding read_clock after
torn_read secs nsecs = (stage, rises, refl)
  where
    rises : (k : ℕ) → stage k ≤ stage (k + 1)
    rises zero = omega arith
    rises (suc zero) = omega arith
    rises (suc (suc k)) = grind arith
