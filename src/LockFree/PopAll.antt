-- ===== src/LockFree/PopAll.antt =====
-- What the pops of `main` find after the pushers have been joined.
use linux_page_cache_lab.Base.{
  ℕ, zero, suc, ◌+◌, ◌*◌, ◌<◌, ◌≤◌, ◌≡◌, refl, ◌∙◌, arith, false, some, List, [], ◌∷◌, length, ◌==◌,
  if◌then◌else◌, Star,
}
use linux_page_cache_lab.LockFree.{System, init, Step, Joined, pop_all}
use linux_page_cache_lab.LockFree.Chain.{pop_all-Chain}
use linux_page_cache_lab.LockFree.Pushed.{weigh, below, reached-Inv, joined_sums}

abbrev one : ℕ → ℕ
one x = 1

abbrev pub is : ℕ → ℕ → ℕ
is v x = if x == v then 1 else 0

-- How often a value occurs.
unfoldable pub occurrences : ℕ → List ℕ → ℕ
occurrences v [] = 0
occurrences v (x ∷ xs) = is v x + occurrences v xs

length-weigh : (vs : List ℕ) → length vs ≡ weigh one vs
unfolding weigh
length-weigh [] = refl
length-weigh (v ∷ vs) = omega (arith, length-weigh vs)

occurrences-weigh : (v : ℕ) (vs : List ℕ) → occurrences v vs ≡ weigh (is v) vs
unfolding weigh occurrences
occurrences-weigh v [] = refl
occurrences-weigh v (x ∷ vs) = omega (arith, occurrences-weigh v vs)

below-one : (d : ℕ) → below one d ≡ d
unfolding below
below-one zero = refl
below-one (suc d) = omega (arith, below-one d)

below-is_none : (v d : ℕ) → d ≤ v → below (is v) d ≡ 0
unfolding below
below-is_none v zero h = refl
below-is_none v (suc d) h = ground (arith, below-is_none v d)

below-is : (v d : ℕ) → v < d → below (is v) d ≡ 1
unfolding below
below-is v zero h = absurd (omega arith)
below-is v (suc d) h = ground (arith, below-is v d, below-is_none v d)

-- Whatever the schedule of T pushers, of which each pushes 0 … items - 1: after the join the pops of
-- `main` read no freed node and end after exactly T * items values, in which every value
-- that was pushed occurs T times.
pub pops_all_pushed :
    (T items : ℕ) {s : System}
    → Star (Step T items false) init s
    → Joined T items s
    → (vs : List ℕ) × (pop_all (T * items + 1) s.heap s.top ≡ some vs)
      × (length vs ≡ T * items)
      × ((v : ℕ) → v < items → occurrences v vs ≡ T)
pops_all_pushed T items {s = s} r joined =
    let v = reached-Inv r in
    let sums = joined_sums v joined in
    let size : length v.vals ≡ T * items =
      length-weigh v.vals ∙ rw (sums one, below-one items) refl in
    (
      v.vals,
      pop_all-Chain (T * items + 1) s.heap (omega arith) v.chain,
      size,
      λ k inside.
          rw (occurrences-weigh k v.vals, sums (is k), below-is k items inside) (omega arith),
    )
