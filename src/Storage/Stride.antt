-- ===== src/Storage/Stride.antt =====
-- The strided loop of labs/lab_29_storage_fs.c reads every page.
use native.Mathlib.Nat.{mul-add-mod_self_right, mod-eq_of_lt, mod-eq-sub-mod, mod-lt}
use linux_page_cache_lab.Base.{
  ℕ, ◌+◌, ◌-◌, ◌*◌, ◌/◌, ◌%◌, ◌<◌, ◌≤◌, ◌≡◌, ap, ◌∙◌, arith, dec_lt, ◌⊎◌, inl, inr,
}
use linux_page_cache_lab.Storage.{stride_index}

half_cases : (i : ℕ) → ((j : ℕ) × (i ≡ 2 * j)) ⊎ ((j : ℕ) × (i ≡ 2 * j + 1))
half_cases i = elim (dec_lt (i % 2) 1) [
  | yes even ↦ inl (i / 2, omega arith)
  | no odd ↦ inr (i / 2, omega arith)
]

-- An even page stands where it stood, and an odd one is moved by half the pages.
module _ (k : ℕ) (some_pages : 0 < k) where
  halved : 4 * k / 2 ≡ 2 * k
  halved = omega arith

  pub stride-even : (j : ℕ) → 2 * j < 4 * k → stride_index (4 * k) (2 * j) ≡ 2 * j
  unfolding stride_index
  stride-even j h =
      let whole : 2 * j * (4 * k / 2 + 1) ≡ j * (4 * k) + 2 * j = rw halved (grind arith) in
      ap (λ (t : ℕ). t % (4 * k)) whole ∙ mul-add-mod_self_right j (4 * k) (2 * j) ∙ mod-eq_of_lt h

  -- The sum of the odd number 2 * j + 1 and half of the pages, modulo the pages.
  moved : ℕ → ℕ
  moved j = (2 * j + 1 + 2 * k) % (4 * k)

  stride-odd : (j : ℕ) → stride_index (4 * k) (2 * j + 1) ≡ moved j
  unfolding stride_index moved
  stride-odd j =
      let whole : (2 * j + 1) * (4 * k / 2 + 1) ≡ j * (4 * k) + (2 * j + 1 + 2 * k) =
        rw halved (grind arith) in
      ap (λ (t : ℕ). t % (4 * k)) whole ∙ mul-add-mod_self_right j (4 * k) (2 * j + 1 + 2 * k)

  moved-low : (j : ℕ) → 2 * j + 1 < 2 * k → moved j ≡ 2 * (j + k) + 1
  unfolding moved
  moved-low j h = mod-eq_of_lt (omega arith) ∙ omega arith

  moved-high : (j : ℕ) → 2 * j + 1 < 4 * k → 2 * k ≤ 2 * j + 1 → moved j ≡ 2 * (j - k) + 1
  unfolding moved
  moved-high j h high = mod-eq-sub-mod (omega arith) ∙ mod-eq_of_lt (omega arith) ∙ omega arith

  odd_twice : (j : ℕ) → 2 * j + 1 < 4 * k → stride_index (4 * k) (moved j) ≡ 2 * j + 1
  odd_twice j h = elim (dec_lt (2 * j + 1) (2 * k)) [
    | yes low ↦
        rw (moved-low j low)
          (stride-odd (j + k) ∙ moved-high (j + k) (omega arith) (omega arith) ∙ omega arith)
    | no high ↦
        rw (moved-high j h (omega arith))
          (stride-odd (j - k) ∙ moved-low (j - k) (omega arith) ∙ omega arith)
  ]

stride_lt : (npages i : ℕ) → 0 < npages → stride_index npages i < npages
unfolding stride_index
stride_lt npages i h = mod-lt _ h

-- If the number of pages is a multiple of 4, the strided loop reads in round `i` a page of the file, and in the
-- round with that page's number the page `i`.
pub stride_twice :
    (npages i : ℕ)
    → npages % 4 ≡ 0
    → i < npages
    → (stride_index npages i < npages) × (stride_index npages (stride_index npages i) ≡ i)
stride_twice npages i whole inside =
    let k : ℕ = npages / 4 in
    let fours : npages ≡ 4 * k = omega arith in
    let some_pages : 0 < k = omega arith in
    (
      stride_lt npages i (omega arith),
      elim (half_cases i) [
        | inl (j, e) ↦
            rw (fours, e)
              (ap (stride_index (4 * k)) (stride-even k some_pages j (omega arith))
                ∙ stride-even k some_pages j (omega arith))
        | inr (j, e) ↦
            rw (fours, e)
              (ap (stride_index (4 * k)) (stride-odd k some_pages j)
                ∙ odd_twice k some_pages j (omega arith))
      ],
    )
