-- ===== src/Increment/Labs.antt =====
-- The four workers of labs/lab_19_locking.c and labs/lab_20_finegrained_lock.c, and what `main`
-- reads after it has joined its threads.
use linux_page_cache_lab.Base.{
  ℕ, zero, suc, ◌+◌, ◌-◌, ◌*◌, ◌/◌, ◌%◌, ◌<◌, ◌≡◌, refl, ◌∙◌, ap, arith, Star,
}
use linux_page_cache_lab.Increment.{Worker, System, Step, init, Joined, hits}
use linux_page_cache_lab.Increment.Invariant.{joined_exact}

abbrev pub n_buckets : ℕ
n_buckets = 64

abbrev pub n_items : ℕ
n_items = 1000000

-- `ITERS` of lab_19.
abbrev pub iters : ℕ
iters = 2000000

-- `counter_mtx++` under `mtx`.
abbrev pub mutex_worker : Worker
mutex_worker = record { iters = iters; cell = λ i. 0; lock_of = λ c. 0 }

-- `counter_spin++` under `spin`.
abbrev pub spin_worker : Worker
spin_worker = record { iters = iters; cell = λ i. 0; lock_of = λ c. 0 }

-- `global_table[i % NBUCKETS]++` under `global_lock`.
abbrev pub coarse_worker : Worker
coarse_worker = record { iters = n_items; cell = λ i. i % n_buckets; lock_of = λ b. 0 }

-- `fine_table[b]++` under `bucket_locks[b]`, where `b = i % NBUCKETS`.
abbrev pub fine_worker : Worker
fine_worker = record { iters = n_items; cell = λ i. i % n_buckets; lock_of = λ b. b }

hits_same : (n : ℕ) → hits (λ i. 0) 0 n ≡ n
unfolding hits
hits_same zero = refl
hits_same (suc n) = ground (arith, hits_same n)

hits_mod : (n b : ℕ) → b < 64 → hits (λ i. i % 64) b n ≡ (n + 63 - b) / 64
unfolding hits
hits_mod zero b h = omega arith
hits_mod (suc n) b h = ground (arith, hits_mod n b)

-- Whatever the schedule, after the join of `T` threads neither counter of lab_19 has lost an
-- increment: each is `T` times `ITERS`.
pub lab_19_counters :
    (T : ℕ) {s u : System}
    → Star (Step mutex_worker T) init s
    → Joined mutex_worker T s
    → Star (Step spin_worker T) init u
    → Joined spin_worker T u
    → (s.sh.mem 0 ≡ T * iters) × (u.sh.mem 0 ≡ T * iters)
lab_19_counters T r j q k = (
  joined_exact mutex_worker T r j 0 ∙ ap (λ n. T * n) (hits_same iters),
  joined_exact spin_worker T q k 0 ∙ ap (λ n. T * n) (hits_same iters),
)

-- The coarse and the fine locking of lab_20 fill their tables alike: whatever the two schedules,
-- after the joins each of the 64 buckets holds `T` times 15625 in both.
pub lab_20_tables :
    (T : ℕ) {s u : System}
    → Star (Step coarse_worker T) init s
    → Joined coarse_worker T s
    → Star (Step fine_worker T) init u
    → Joined fine_worker T u
    → (b : ℕ) → b < n_buckets
    → (s.sh.mem b ≡ T * 15625) × (u.sh.mem b ≡ T * 15625)
lab_20_tables T r j q k b h = (
  joined_exact coarse_worker T r j b ∙ ap (λ n. T * n) (bucket_hits b h),
  joined_exact fine_worker T q k b ∙ ap (λ n. T * n) (bucket_hits b h),
)
  where
    bucket_hits : (b : ℕ) → b < 64 → hits (λ i. i % 64) b 1000000 ≡ 15625
    bucket_hits b h = hits_mod 1000000 b h ∙ omega arith
