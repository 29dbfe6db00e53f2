-- ===== src/Base/Runs.antt =====
-- Runs of a step relation.
use Prim.Native.Nat.{ℕ, ◌+◌, ◌≤◌, ◌<◌}
use native.Mathlib.Omega.{arith}

pub data Star {S : Type 0} (R : S → S → Type 0) (s : S) : S → Type 0 where
  here : Star R s s
  next : {t u : S} → Star R s t → R t u → Star R s u

module _ {S : Type 0} {R : S → S → Type 0} where
  pub Star-trans : {s t u : S} → Star R s t → Star R t u → Star R s u
  Star-trans r here = r
  Star-trans r (next q st) = next (Star-trans r q) st

  -- What every step keeps holds at the end of a run.
  pub Star-keeps :
      (P : S → Type 0) → ((s t : S) → R s t → P s → P t) → {s t : S} → Star R s t → P s → P t
  Star-keeps P keep here p = p
  Star-keeps P keep (next r st) p = keep _ _ st (Star-keeps P keep r p)

  -- A run of steps of one relation after a run of steps of a larger one.
  pub Star-then :
      {Small : S → S → Type 0}
      → ((s t : S) → Small s t → R s t)
      → {s t u : S} → Star R s t
      → Star Small t u
      → Star R s u
  Star-then larger r here = r
  Star-then larger r (next q st) = next (Star-then larger r q) (larger _ _ st)

  unfoldable pub steps : {s t : S} → Star R s t → ℕ
  steps here = 0
  steps (next r st) = steps r + 1

  -- If every step takes a measure down, it bounds the number of steps.
  pub steps-le :
      (measure : S → ℕ)
      → ((s t : S) → R s t → measure t < measure s)
      → {s t : S} (r : Star R s t) → steps r + measure t ≤ measure s
  unfolding steps
  steps-le measure down here = omega arith
  steps-le measure down (next r st) = omega (arith, steps-le measure down r, down _ _ st)
