-- ===== src/Fifo/Slots.antt =====
-- The items of a ring, from the index of the first one on.
use linux_page_cache_lab.Base.{
  ℕ, zero, suc, ◌+◌, ◌%◌, ◌<◌, ◌≡◌, ◌∙◌, ap, arith, List, [], ◌∷◌, get_or, range, refl,
}
use mathlib.Core.Path.{ap₂}

abbrev pub slots : (buffer : List ℕ) (cap start n : ℕ) → List ℕ
slots buffer cap start zero = []
slots buffer cap start (suc n) = get_or buffer (start % cap) 0 ∷ slots buffer cap (start + 1) n

pub slots-eq-range :
    (buffer : List ℕ) (cap start a n : ℕ)
    → ((j : ℕ) → j < n → get_or buffer ((start + j) % cap) 0 ≡ a + j)
    → slots buffer cap start n ≡ range a n
slots-eq-range buffer cap start a zero h = refl
slots-eq-range buffer cap start a (suc n) h =
    ap₂ ◌∷◌ (ap (λ k. get_or buffer (k % cap) 0) (omega arith) ∙ h 0 (omega arith) ∙ (omega arith))
      (slots-eq-range buffer cap (start + 1) (a + 1) n (λ j lt.
        ap (λ k. get_or buffer (k % cap) 0) (omega arith)
        ∙ h (j + 1) (omega arith)
        ∙ (omega arith)))
