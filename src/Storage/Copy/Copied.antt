-- ===== src/Storage/Copy/Copied.antt =====
-- What the copy loop of labs/lab_31_fs_ops.c leaves in the copy.
use mathlib.Core.List.{append_assoc, append-nil}
use linux_page_cache_lab.Base.{
  ℕ, zero, suc, ◌+◌, ◌-◌, ◌≤◌, ◌<◌, ◌≡◌, refl, ap, ◌∙◌, arith, true, false, Option, none, some,
  List, [], ◌∷◌, ◌++◌, length, length-append, ◌==◌, inl, inr, Bool-cases, Option-cases,
}
use linux_page_cache_lab.Storage.Copy.{Kernel, take, drop, at_most, buf_size, written, copy}

length-take : (n : ℕ) (xs : List ℕ) → length (take n xs) ≤ n
length-take zero xs = omega arith
length-take (suc n) [] = omega arith
length-take (suc n) (x ∷ xs) = omega (arith, length-take n xs)

length-take-le : (n : ℕ) (xs : List ℕ) → length (take n xs) ≤ length xs
length-take-le zero xs = omega arith
length-take-le (suc n) [] = omega arith
length-take-le (suc n) (x ∷ xs) = omega (arith, length-take-le n xs)

length-drop : (n : ℕ) (xs : List ℕ) → length (drop n xs) ≡ length xs - n
length-drop zero xs = omega arith
length-drop (suc n) [] = omega arith
length-drop (suc n) (x ∷ xs) = omega (arith, length-drop n xs)

take-append-drop : (n : ℕ) (xs : List ℕ) → take n xs ++ drop n xs ≡ xs
take-append-drop zero xs = refl
take-append-drop (suc n) [] = refl
take-append-drop (suc n) (x ∷ xs) = ap (λ (t : List ℕ). x ∷ t) (take-append-drop n xs)

take_all : (n : ℕ) (xs : List ℕ) → n ≤ length xs → take n (take n xs) ≡ take n xs
take_all zero xs h = refl
take_all (suc n) [] h = refl
take_all (suc n) (x ∷ xs) h = ap (λ (t : List ℕ). x ∷ t) (take_all n xs (omega arith))

at_most-le : (limit n : ℕ) → at_most limit n ≤ limit
at_most-le limit n = ground arith

at_most_pos : (limit n : ℕ) → 0 < limit → 0 < n → 0 < at_most limit n
at_most_pos limit n h p = ground arith

length-written : (o : Option ℕ) (xs : List ℕ) → length (written o xs) ≤ length xs
length-written none xs = omega arith
length-written (some n) xs = length-take-le n xs

-- Where the copy loop ends, and with how many bytes at most.
abbrev EndsWithin : Option (List ℕ) → ℕ → Type 0
EndsWithin none size = ⊥
EndsWithin (some dst) size = length dst ≤ size

ends_within :
    (r : Option (List ℕ)) (size : ℕ)
    → EndsWithin r size
    → (dst : List ℕ) × (r ≡ some dst) × (length dst ≤ size)
ends_within none size e = absurd e
ends_within (some dst) size e = (dst, refl, e)

EndsWithin-le :
    (r : Option (List ℕ)) (size more : ℕ) → size ≤ more → EndsWithin r size → EndsWithin r more
EndsWithin-le none size more h e = e
EndsWithin-le (some dst) size more h e = omega arith

module _ (k : Kernel) where
  copy_within :
      (fuel pos : ℕ) (left dst : List ℕ)
      → length left < fuel
      → EndsWithin (copy k fuel pos left dst) (length dst + length left)
  unfolding copy
  copy_within zero pos left dst enough = absurd (omega arith)
  copy_within (suc fuel) pos left dst enough = elim (Option-cases (k.read pos buf_size)) [
    | inl e ↦ rw (e, copy) (omega arith)
    | inr (n, e) ↦
        let nr : ℕ = at_most (length left) (at_most buf_size n) in
        let added : List ℕ = written (k.write (length dst) nr) (take nr left) in
        elim (Bool-cases (nr == 0)) [
          | inl ended ↦ rw (e, copy, ended) (omega arith)
          | inr more ↦
              rw (e, copy, more)
                (EndsWithin-le _ (length (dst ++ added) + length (drop nr left)) _
                  (omega (
                    arith,
                    length-append dst added,
                    length-drop nr left,
                    length-written (k.write (length dst) nr) (take nr left),
                    length-take nr left,
                    at_most-le (length left) (at_most buf_size n),
                  ))
                  (copy_within fuel (pos + nr) (drop nr left) (dst ++ added)
                    (ground (arith, length-drop nr left))))
        ]
  ]

  -- Whatever the kernel answers, the loop ends within one round more than the source has bytes, and
  -- the copy has then grown by at most the size of the source.
  pub copy_total :
      (src dst : List ℕ)
      → (r : List ℕ) × (copy k (length src + 1) 0 src dst ≡ some r)
        × (length r ≤ length dst + length src)
  copy_total src dst = ends_within _ _ (copy_within (length src + 1) 0 src dst (omega arith))

  module _ (reads : (pos asked : ℕ) → (n : ℕ) × (k.read pos asked ≡ some n) × (0 < n))
      (writes : (pos asked : ℕ) → k.write pos asked ≡ some asked) where
    copy_all :
        (fuel pos : ℕ) (left dst : List ℕ)
        → length left < fuel
        → copy k fuel pos left dst ≡ some (dst ++ left)
    unfolding copy
    copy_all zero pos left dst enough = absurd (omega arith)
    copy_all (suc fuel) pos [] dst enough =
        let (n, e, p) = reads pos buf_size in
        let none_left : (at_most 0 (at_most buf_size n) == 0) ≡ true = ground arith in
        rw (e, copy, none_left, append-nil dst) refl
    copy_all (suc fuel) pos (x ∷ xs) dst enough =
        let (n, e, p) = reads pos buf_size in
        let left : List ℕ = x ∷ xs in
        let nr : ℕ = at_most (length left) (at_most buf_size n) in
        let some_bytes : 0 < nr =
          at_most_pos (length left) (at_most buf_size n) (omega arith)
            (at_most_pos buf_size n (omega arith) p) in
        let more : (nr == 0) ≡ false = ground arith in
        rw
          (
            e,
            copy,
            more,
            writes (length dst) nr,
            take_all nr left (at_most-le (length left) (at_most buf_size n)),
          )
          (copy_all fuel (pos + nr) (drop nr left) (dst ++ take nr left)
              (omega (arith, length-drop nr left))
            ∙ ap some (
                append_assoc dst (take nr left) (drop nr left)
                ∙ ap (λ (t : List ℕ). dst ++ t) (take-append-drop nr left)))

    -- If every read gives a byte as long as there is one and every write takes what it is given, the
    -- copy is the source, whatever the sizes of the reads.
    pub copy_same : (src : List ℕ) → copy k (length src + 1) 0 src [] ≡ some src
    copy_same src = copy_all (length src + 1) 0 src [] (omega arith)

  -- A first write that takes less than it is given is not repeated: the copy is then shorter than the source.
  pub copy_short :
      (src : List ℕ) (n m : ℕ)
      → k.read 0 buf_size ≡ some n
      → k.write 0 (at_most (length src) (at_most buf_size n)) ≡ some m
      → m < at_most (length src) (at_most buf_size n)
      → (r : List ℕ) × (copy k (length src + 1) 0 src [] ≡ some r) × (length r < length src)
  unfolding copy
  copy_short src n m e w short =
      let nr : ℕ = at_most (length src) (at_most buf_size n) in
      let first : List ℕ = take m (take nr src) in
      let more : (nr == 0) ≡ false = ground arith in
      let one_more : length src + 1 ≡ suc (length src) = omega arith in
      let (r, ended, size) = ends_within _ _ (
        copy_within (length src) (0 + nr) (drop nr src) first
          (ground (arith, length-drop nr src, at_most-le (length src) (at_most buf_size n)))) in
      (
        r,
        rw (one_more, e, copy, more, w) ended,
        omega (
          arith,
          size,
          length-drop nr src,
          length-take m (take nr src),
          at_most-le (length src) (at_most buf_size n),
        ),
      )
