-- ===== src/PageCache/Sums.antt =====
-- The specification of a checksum: a byte of each 4096 from a start, added up.
use linux_page_cache_lab.Base.{
  ℕ, zero, suc, ◌+◌, ◌-◌, ◌*◌, ◌/◌, ◌%◌, ◌≤◌, ◌≡◌, ◌∙◌, ap, arith, ◌⊎◌, inl, inr,
}

-- How many bytes of a stretch of `n` are sampled.
abbrev pub pages : ℕ → ℕ
pages n = (n + 4095) / 4096

module _ (file : ℕ → ℕ) where
  unfoldable pub page_sum : (pos count : ℕ) → ℕ
  page_sum pos zero = 0
  page_sum pos (suc n) = file pos + page_sum (pos + 4096) n

  pub page_sum-append :
      (pos a b c : ℕ) → c ≡ a + b → page_sum pos c ≡ page_sum pos a + page_sum (pos + 4096 * a) b
  unfolding page_sum
  page_sum-append pos zero b c h = ground arith
  page_sum-append pos (suc a) b zero h = absurd (omega arith)
  page_sum-append pos (suc a) b (suc c) h =
      ground (arith, page_sum-append (pos + 4096) a b c (omega arith))

  -- A stretch may be cut at a multiple of 4096, or at its end.
  pub page_sum-split :
      (pos len first : ℕ)
      → first ≤ len
      → (first ≡ len) ⊎ (first % 4096 ≡ 0)
      → page_sum pos (pages len)
        ≡ page_sum pos (pages first) + page_sum (pos + first) (pages (len - first))
  unfolding page_sum
  page_sum-split pos len first fits (inl e) =
      let none_left : pages (len - first) ≡ 0 = omega arith in rw (none_left, e) (omega arith)
  page_sum-split pos len first fits (inr e) =
      let whole : 4096 * pages first ≡ first = omega arith in
      page_sum-append pos (pages first) (pages (len - first)) (pages len) (omega arith)
      ∙ ap (λ t. page_sum pos (pages first) + page_sum (pos + t) (pages (len - first))) whole
