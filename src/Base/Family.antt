-- ===== src/Base/Family.antt =====
-- Families `ℕ → A` indexed by thread: update at one index, and sums over the first `n`.
use Prim.Native.Nat.{ℕ, zero, suc, ◌+◌, ◌*◌, ◌≤◌, ◌<◌}
use mathlib.Core.Path.{◌≡◌, refl, sym, ap, ◌∙◌}
use mathlib.Core.Logic.{ite, ◌≢◌, ◌⊎◌, inl, inr}
use native.Mathlib.Decide.{dec_lt, ℕ_discrete}
use native.Mathlib.Omega.{arith}

abbrev pub update {ℓ} : {Member : Type ℓ} → (ℕ → Member) → ℕ → Member → ℕ → Member
update who k new j = ite (ℕ_discrete k j) new (who j)

module _ {ℓ} {Member : Type ℓ} (cost : Member → ℕ) where
  unfoldable pub total : ℕ → (ℕ → Member) → ℕ
  total zero who = 0
  total (suc last) who = cost (who last) + total last who

  untouched :
      (new : Member) (who : ℕ → Member) (k last : ℕ)
      → last ≤ k
      → total last who ≡ total last (update who k new)
  unfolding total
  untouched new who k zero above = refl
  untouched new who k (suc last) above = ground (arith, untouched new who k last)

  -- A sum changes by what its updated member costs more or less.
  pub total-update :
      (len : ℕ) (who : ℕ → Member) (k : ℕ) (new : Member)
      → k < len
      → total len (update who k new) + cost (who k) ≡ total len who + cost new
  unfolding total
  total-update zero who k new inside = absurd (omega arith)
  total-update (suc last) who k new inside = elim (dec_lt k last) [
    | yes earlier ↦ ground (arith, total-update last who k new earlier)
    | no newest ↦ ground (arith, untouched new who k last)
  ]

  -- The same for a member that is known.
  pub total-replace :
      (len : ℕ) (who : ℕ → Member) (k : ℕ) {old : Member} (new : Member)
      → k < len
      → who k ≡ old
      → total len (update who k new) + cost old ≡ total len who + cost new
  total-replace len who k new inside e = omega (arith, total-update len who k new inside, ap cost e)

  -- The cost of one member is at most the sum.
  pub le-total : (len : ℕ) (who : ℕ → Member) (k : ℕ) → k < len → cost (who k) ≤ total len who
  unfolding total
  le-total zero who k inside = absurd (omega arith)
  le-total (suc last) who k inside = elim (dec_lt k last) [
    | yes earlier ↦ omega (arith, le-total last who k earlier)
    | no newest ↦ ground arith
  ]

  -- A sum that is not 0 has a member that costs something.
  pub total_pos :
      (len : ℕ) (who : ℕ → Member) → 0 < total len who → (k : ℕ) × (k < len) × (0 < cost (who k))
  unfolding total
  total_pos zero who h = absurd (omega arith)
  total_pos (suc last) who h = elim (dec_lt 0 (cost (who last))) [
    | yes some_cost ↦ (last, omega arith, some_cost)
    | no free ↦ let (k, inside, e) = total_pos last who (omega arith) in (k, omega arith, e)
  ]

  pub total-le :
      (len most : ℕ) (who : ℕ → Member)
      → ((k : ℕ) → k < len → cost (who k) ≤ most)
      → total len who ≤ len * most
  unfolding total
  total-le zero most who small = omega arith
  total-le (suc last) most who small =
      omega (
        arith,
        small last (omega arith),
        total-le last most who (λ k inside. small k (omega arith)),
      )

  -- If every member costs `each`, the sum is `len` times `each`.
  pub total_const :
      (len each : ℕ) (who : ℕ → Member)
      → ((k : ℕ) → k < len → cost (who k) ≡ each)
      → total len who ≡ len * each
  unfolding total
  total_const zero each who same = omega arith
  total_const (suc last) each who same =
      omega (
        arith,
        same last (omega arith),
        total_const last each who (λ k inside. same k (omega arith)),
      )

-- Some member below `len` is another than the given one, or all are that.
pub find_ne {ℓ} :
    {Member : Type ℓ}
    → Discrete Member
    → (a : Member) (who : ℕ → Member) (len : ℕ)
    → ((k : ℕ) × (k < len) × (who k ≢ a)) ⊎ ((k : ℕ) → k < len → who k ≡ a)
find_ne same a who zero = inr (λ k h. absurd (omega arith))
find_ne same a who (suc last) = elim (same (who last) a) [
  | no other ↦ inl (last, omega arith, other)
  | yes e ↦ elim (find_ne same a who last) [
    | inl (k, inside, other) ↦ inl (k, omega arith, other)
    | inr all ↦ inr (λ k h. elim (ℕ_discrete k last) [
      | yes newest ↦ ap who newest ∙ e
      | no earlier ↦ all k (omega arith)
    ])
  ]
]

-- Some member below `len` is the given one, or none is.
pub find_eq {ℓ} :
    {Member : Type ℓ}
    → Discrete Member
    → (a : Member) (who : ℕ → Member) (len : ℕ)
    → ((k : ℕ) × (k < len) × (who k ≡ a)) ⊎ ((k : ℕ) → k < len → who k ≢ a)
find_eq same a who zero = inr (λ k h. absurd (omega arith))
find_eq same a who (suc last) = elim (same (who last) a) [
  | yes e ↦ inl (last, omega arith, e)
  | no other ↦ elim (find_eq same a who last) [
    | inl (k, inside, e) ↦ inl (k, omega arith, e)
    | inr none_there ↦ inr (λ k h. elim (ℕ_discrete k last) [
      | yes newest ↦ λ e. other (sym (ap who newest) ∙ e)
      | no earlier ↦ none_there k (omega arith)
    ])
  ]
]

-- What holds of all members and of the new one holds after the update.
pub update_all {ℓ κ} :
    {Member : Type ℓ} (P : Member → Type κ) (who : ℕ → Member) (k : ℕ) (new : Member)
    → ((u : ℕ) → P (who u))
    → P new
    → (u : ℕ) → P (update who k new u)
update_all P who k new all here u = elim (ℕ_discrete k u) as (λ d. P (ite d new (who u))) [
  | yes same ↦ here
  | no other ↦ all u
]
