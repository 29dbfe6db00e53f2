-- ===== src/PageCache/Read/Full.antt =====
-- `read_range` on a file that holds the whole range, when every `read` fills its chunk.
use linux_page_cache_lab.Base.{
  ℕ, zero, suc, ◌+◌, ◌-◌, ◌%◌, ◌≤◌, ◌<◌, ◌≡◌, ◌∙◌, ap, arith, Bool-cases, inl, inr, ◌⊎◌, ltb, true,
  some,
}
use mathlib.Core.Path.{ap₂}
use linux_page_cache_lab.Base.Outcome.{ok}
use linux_page_cache_lab.PageCache.{u64_mod, Kernel}
use linux_page_cache_lab.PageCache.Sums.{pages, page_sum, page_sum-split}
use linux_page_cache_lab.PageCache.Read.{sample, read_loop, read_range, chunk_of}

-- Every `read` inside the first `size` bytes returns all that it was asked for.
abbrev pub ReadsFully : Kernel → ℕ → Type 0
ReadsFully k size = (call pos chunk : ℕ) → pos + chunk ≤ size → k.read call pos chunk ≡ some chunk

abbrev pub AllOpen : Kernel → Type 0
AllOpen k = (k.opens ≡ true) × (k.seeks ≡ true) × (k.has_buffer ≡ true)

module _ (file : ℕ → ℕ) where
  -- The sampling loop computes the sum, modulo 2^64.
  pub sample_lem :
      (fuel i n pos checksum : ℕ)
      → n ≤ i + fuel
      → checksum < u64_mod
      → sample file fuel i n pos checksum
        ≡ (checksum + page_sum file (pos + i) (pages (n - i))) % u64_mod
  unfolding sample page_sum
  sample_lem zero i n pos checksum enough small =
      let e : pages (n - i) ≡ 0 = omega arith in rw e (omega arith)
  sample_lem (suc fuel) i n pos checksum enough small = elim (Bool-cases (ltb i n)) [
    | inl more ↦
        let e : pages (n - i) ≡ suc (pages (n - (i + 4096))) = ground arith in
        let ih =
          sample_lem fuel (i + 4096) n pos ((checksum + file (pos + i)) % u64_mod) (omega arith)
            (omega arith) in
        let a : pos + (i + 4096) ≡ pos + i + 4096 = omega arith in
        rw (more, sample) (rw (ih, e, a) (omega arith))
    | inr done ↦ let e : pages (n - i) ≡ 0 = ground arith in rw (done, sample) (rw e (omega arith))
  ]

  sample_all :
      (n pos checksum : ℕ)
      → checksum < u64_mod
      → sample file n 0 n pos checksum ≡ (checksum + page_sum file pos (pages n)) % u64_mod
  sample_all n pos checksum small =
      sample_lem n 0 n pos checksum (omega arith) small
      ∙ ap₂ (λ p m. (checksum + page_sum file p (pages m)) % u64_mod) (omega arith) (omega arith)

  module _ (k : Kernel) (size : ℕ) (full : ReadsFully k size) where
    read_step :
        (fuel call pos r checksum n : ℕ)
        → k.read call pos (chunk_of (suc r)) ≡ some (suc n)
        → read_loop file k (suc fuel) call pos (suc r) checksum
          ≡ read_loop file k fuel
              (call + 1)
              (pos + suc n)
              (suc r - suc n)
              (sample file (suc n) 0 (suc n) pos checksum)
    unfolding read_loop
    read_step fuel call pos r checksum n h = rw (h, read_loop)

    -- Chunks of `BUF_SIZE` do not show in the sum: it is a byte of each 4096 from the start.
    read_loop_full :
        (fuel call pos remaining checksum : ℕ)
        → remaining < fuel
        → pos + remaining ≤ size
        → checksum < u64_mod
        → read_loop file k fuel call pos remaining checksum
          ≡ ok ((checksum + page_sum file pos (pages remaining)) % u64_mod)
    unfolding read_loop page_sum
    read_loop_full zero call pos remaining checksum enough inside small = absurd (omega arith)
    read_loop_full (suc fuel) call pos zero checksum enough inside small = ap ok (omega arith)
    read_loop_full (suc fuel) call pos (suc r) checksum enough inside small =
        let c = chunk_of (suc r) in
        let n = c - 1 in
        let size_of : (c ≡ suc n) × (c ≤ suc r) × ((c ≡ suc r) ⊎ (c ≡ 1048576)) = ground arith in
        let got : k.read call pos c ≡ some (suc n) =
          full call pos c (omega arith) ∙ ap some size_of.0 in
        let sampled = sample_all (suc n) pos checksum small in
        let split = page_sum-split file pos (suc r) (suc n) (omega arith) (ground arith) in
        read_step fuel call pos r checksum n got
        ∙ read_loop_full fuel (call + 1) (pos + suc n) (suc r - suc n)
            (sample file (suc n) 0 (suc n) pos checksum) (omega arith) (omega arith)
            (omega (arith, sampled))
        ∙ ap ok (omega (arith, sampled, split))

    -- `read_range` on a range inside the file returns the sum of a byte of each 4096, modulo 2^64.
    pub read_range_full :
        (start end : ℕ)
        → AllOpen k
        → start ≤ end
        → end ≤ size
        → read_range file k start end
          ≡ ok (record {
            minflt = k.min1 - k.min0;
            majflt = k.maj1 - k.maj0;
            checksum = page_sum file start (pages (end - start)) % u64_mod;
          })
    unfolding read_range
    read_range_full start end opened order inside = ground (
      arith,
      read_loop_full (end - start + 1) 0 start (end - start) 0 (omega arith) (omega arith)
          (omega arith),
    )
