-- ===== src/Fifo/Client.antt =====
-- An implementation of the queue, as a user of it sees it, and what every user may rely on. The two labs fill the record.
use linux_page_cache_lab.Base.{
  ℕ, zero, suc, ◌+◌, ◌≤◌, ◌≡◌, refl, sym, ◌∙◌, ap, arith, List, [], ◌∷◌, ◌++◌, length,
  length-append, numbers, numbers-eq-range, range, Star,
}
use mathlib.Core.Path.{ap₂}
use linux_page_cache_lab.Fifo.{Fifo, empty}
use linux_page_cache_lab.Fifo
use linux_page_cache_lab.Fifo.Order.{Fifo-InOrder}

pub record Queue : Type 1 where
  pub State : Type 0
  pub Step : State → State → Type 0
  pub start : State
  pub cap : ℕ
  pub view : State → Fifo
  pub refines : {s : State} → Star Step start s → Star (Fifo.Step cap) empty (view s)

length-numbers : (n : ℕ) → length (numbers n) ≡ n
unfolding numbers
length-numbers zero = refl
length-numbers (suc n) = omega (arith, length-append (numbers n) (n ∷ []), length-numbers n)

-- A beginning of a, a + 1, … is as long as it goes.
range_prefix : (xs ys : List ℕ) (a n : ℕ) → xs ++ ys ≡ range a n → xs ≡ range a (length xs)
range_prefix [] ys a n h = refl
range_prefix (x ∷ xs) ys a zero h = absurd (cc)
range_prefix (x ∷ xs) ys a (suc n) h = ap₂ ◌∷◌ (cc) (range_prefix xs ys (a + 1) n (cc))

prefix_lem : (xs ys : List ℕ) (n : ℕ) → xs ++ ys ≡ numbers n → xs ≡ numbers (length xs)
prefix_lem xs ys n h =
    range_prefix xs ys 0 n (h ∙ numbers-eq-range n) ∙ sym (numbers-eq-range (length xs))

module _ (q : Queue) where
  open q use {State, Step, start, cap, view, refines}

  -- In every reachable state what has come out is 0, 1, 2, … in order, and what waits are the next numbers, at most as many
  -- as there are places.
  pub queue_in_order :
      {s : State}
      → Star Step start s
      → ((view s).out ≡ numbers (length (view s).out))
        × (length (view s).out + length (view s).waiting ≡ (view s).next_item)
        × (length (view s).waiting ≤ cap)
  queue_in_order {s} r =
      let v = Fifo-InOrder cap (refines r) in
      (
        prefix_lem (view s).out (view s).waiting (view s).next_item v.all_there,
        omega (
          arith,
          length-append (view s).out (view s).waiting,
          ap length v.all_there,
          length-numbers ((view s).next_item),
        ),
        v.fits,
      )
