-- ===== src/Base/Lists.antt =====
-- Lists measured and indexed by native numbers, under the library's names.
use Prim.Native.Nat.{ℕ, zero, suc, ◌+◌, ◌<◌}
use mathlib.Core.Path.{◌≡◌, refl, ap}
use mathlib.Core.Logic.{◌≢◌}
use mathlib.Core.List.{List, [], ◌∷◌, ◌++◌}
use native.Mathlib.Omega.{arith}

module _ {ℓ} {A : Type ℓ} where
  abbrev pub length : List A → ℕ
  length [] = 0
  length (x ∷ xs) = suc (length xs)

  abbrev pub get_or : List A → ℕ → A → A
  get_or [] i d = d
  get_or (x ∷ xs) zero d = x
  get_or (x ∷ xs) (suc i) d = get_or xs i d

  -- A write out of bounds changes nothing.
  abbrev pub set : List A → ℕ → A → List A
  set [] i v = []
  set (x ∷ xs) zero v = v ∷ xs
  set (x ∷ xs) (suc i) v = x ∷ set xs i v

  abbrev pub replicate : ℕ → A → List A
  replicate zero a = []
  replicate (suc n) a = a ∷ replicate n a

  pub length-append : (xs ys : List A) → length (xs ++ ys) ≡ length xs + length ys
  length-append [] ys = omega arith
  length-append (x ∷ xs) ys = omega (arith, length-append xs ys)

  pub length-set : (xs : List A) (i : ℕ) (v : A) → length (set xs i v) ≡ length xs
  length-set [] i v = refl
  length-set (x ∷ xs) zero v = refl
  length-set (x ∷ xs) (suc i) v = ap suc (length-set xs i v)

  pub get_or-set_self :
      (xs : List A) (i : ℕ) (v d : A) → i < length xs → get_or (set xs i v) i d ≡ v
  get_or-set_self [] i v d h = absurd (omega arith)
  get_or-set_self (x ∷ xs) zero v d h = refl
  get_or-set_self (x ∷ xs) (suc i) v d h = get_or-set_self xs i v d (omega arith)

  pub get_or-set_ne :
      (xs : List A) (i j : ℕ) (v d : A) → i ≢ j → get_or (set xs i v) j d ≡ get_or xs j d
  get_or-set_ne [] i j v d h = refl
  get_or-set_ne (x ∷ xs) zero zero v d h = absurd (h refl)
  get_or-set_ne (x ∷ xs) zero (suc j) v d h = refl
  get_or-set_ne (x ∷ xs) (suc i) zero v d h = refl
  get_or-set_ne (x ∷ xs) (suc i) (suc j) v d h = get_or-set_ne xs i j v d (λ e. h (ap suc e))

-- 0, 1, …, n - 1.
unfoldable pub numbers : ℕ → List ℕ
numbers zero = []
numbers (suc n) = numbers n ++ (n ∷ [])

pub numbers-add_one : (n : ℕ) → numbers (n + 1) ≡ numbers n ++ (n ∷ [])
unfolding numbers
numbers-add_one n = ap numbers {x = n + 1} {y = suc n} (omega arith)

-- a, a + 1, …, a + n - 1.
abbrev pub range : (a n : ℕ) → List ℕ
range a zero = []
range a (suc n) = a ∷ range (a + 1) n

pub length-range : (a n : ℕ) → length (range a n) ≡ n
length-range a zero = refl
length-range a (suc n) = ap suc (length-range (a + 1) n)

pub range_last : (a n : ℕ) → range a (n + 1) ≡ range a n ++ ((a + n) ∷ [])
range_last a zero = ground arith
range_last a (suc n) = ground (arith, range_last (a + 1) n)

pub range-add_one : (a n : ℕ) → range a (n + 1) ≡ a ∷ range (suc a) n
range-add_one a zero = refl
range-add_one a (suc n) = ground (arith, range-add_one a n)

pub numbers-eq-range : (n : ℕ) → numbers n ≡ range 0 n
unfolding numbers
numbers-eq-range zero = refl
numbers-eq-range (suc n) = ground (arith, numbers-eq-range n, range_last 0 n)
