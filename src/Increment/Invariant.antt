-- ===== src/Increment/Invariant.antt =====
-- While a thread holds the lock of a cell, no other touches the cell, so no increment is lost.
use linux_page_cache_lab.Base.{
  ℕ, suc, ◌+◌, ◌*◌, ◌<◌, ◌≡◌, refl, Option, none, some, arith, update, total, total-update,
  total_const, Star, Star-keeps, ◌∙◌,
}
use linux_page_cache_lab.Increment.{
  Worker, Shared, Pc, at, holding, loaded, stored, System, lock_at, Move, lock, load, store, unlock,
  Step, pick, init, Joined, hits,
}

-- The round in which a thread owns a lock.
abbrev pub holds : Pc → Option ℕ
holds (at i) = none
holds (holding i) = some i
holds (loaded i v) = some i
holds (stored i) = some i

-- The increments of cell `c` that a thread has made.
abbrev pub made : (ℕ → ℕ) → ℕ → Pc → ℕ
made cell c (at i) = hits cell c i
made cell c (holding i) = hits cell c i
made cell c (loaded i v) = hits cell c i
made cell c (stored i) = hits cell c (suc i)

module _ (w : Worker) (T : ℕ) where
  pub record Inv (m : Shared) (pc : ℕ → Pc) : Type 0 where
    pub exact : (c : ℕ) → m.mem c ≡ total (made w.cell c) T pc
    pub owns : (t i : ℕ) → holds (pc t) ≡ some i → m.locks (lock_at w i) ≡ some t
    pub fresh : (t i v : ℕ) → pc t ≡ loaded i v → v ≡ m.mem (w.cell i)
    pub inside : (t i : ℕ) → holds (pc t) ≡ some i → t < T

  module _ {m : Shared} {pc : ℕ → Pc} (inv : Inv m pc) (t : ℕ) (lt : t < T) where
    open inv use {exact, owns, fresh, inside}

    Move-exact :
        {p p' : Pc} {m' : Shared}
        → pc t ≡ p
        → Move w t m p m' p'
        → (c : ℕ) → m'.mem c ≡ total (made w.cell c) T (update pc t p')
    unfolding hits
    Move-exact e (lock {i} _ _) c =
        ground (arith, exact c, total-update (made w.cell c) T pc t (holding i) lt)
    Move-exact e (load {i}) c =
        ground
          (arith, exact c, total-update (made w.cell c) T pc t (loaded i (m.mem (w.cell i))) lt)
    Move-exact e (store {i} {v}) c =
        ground (arith, exact c, fresh t i v, total-update (made w.cell c) T pc t (stored i) lt)
    Move-exact e (unlock {i}) c =
        ground (arith, exact c, total-update (made w.cell c) T pc t (at (i + 1)) lt)

    Move-owns :
        {p p' : Pc} {m' : Shared}
        → pc t ≡ p
        → Move w t m p m' p'
        → (u i : ℕ) → holds (update pc t p' u) ≡ some i
        → m'.locks (lock_at w i) ≡ some u
    Move-owns e (lock {i} below free) u j h = ground (arith, owns u j)
    Move-owns e (load {i}) u j h = ground (arith, owns u j, owns t i)
    Move-owns e (store {i} {v}) u j h = ground (arith, owns u j, owns t i)
    Move-owns e (unlock {i}) u j h = ground (arith, owns u j, owns t i)

    Move-fresh :
        {p p' : Pc} {m' : Shared}
        → pc t ≡ p
        → Move w t m p m' p'
        → (u i v : ℕ) → update pc t p' u ≡ loaded i v
        → v ≡ m'.mem (w.cell i)
    Move-fresh e (lock {i} _ _) u j v h = ground (arith, fresh u j v)
    Move-fresh e (load {i}) u j v h = ground (arith, fresh u j v)
    Move-fresh e (store {i} {v = x}) u j v h = ground (arith, fresh u j v, owns u j, owns t i)
    Move-fresh e (unlock {i}) u j v h = ground (arith, fresh u j v)

    Move-inside :
        {p p' : Pc} {m' : Shared}
        → pc t ≡ p
        → Move w t m p m' p'
        → (u i : ℕ) → holds (update pc t p' u) ≡ some i
        → u < T
    Move-inside e (lock {i} _ _) u j h = ground (arith, inside u j)
    Move-inside e mv u j h = ground (arith, inside u j)

  Step-Inv : (s s' : System) → Step w T s s' → Inv s.sh s.pc → Inv s'.sh s'.pc
  Step-Inv s s' (pick t lt mv) inv = record {
    exact = Move-exact inv t lt refl mv;
    owns = Move-owns inv t lt refl mv;
    fresh = Move-fresh inv t lt refl mv;
    inside = Move-inside inv t lt refl mv;
  }

  Inv-init : Inv init.sh init.pc
  Inv-init = record {
    exact =
        λ c. omega (arith, total_const (made w.cell c) T 0 init.pc (λ i _. unfold hits in refl));
    owns = λ t i h. cc;
    fresh = λ t i v h. cc;
    inside = λ t i h. cc;
  }

  pub Run-Inv : {s : System} → Star (Step w T) init s → Inv s.sh s.pc
  Run-Inv r = Star-keeps (λ s. Inv s.sh s.pc) Step-Inv r Inv-init

  -- Two threads never own the same lock.
  pub exclusive :
      {s : System}
      → Star (Step w T) init s
      → (t u i j : ℕ) → holds (s.pc t) ≡ some i
      → holds (s.pc u) ≡ some j
      → lock_at w i ≡ lock_at w j
      → t ≡ u
  exclusive {s} r t u i j ht hu e = ground (arith, (Run-Inv r).owns t i ht, (Run-Inv r).owns u j hu)

  -- After the join every cell has all the increments of all threads.
  pub joined_exact :
      {s : System}
      → Star (Step w T) init s
      → Joined w T s
      → (c : ℕ) → s.sh.mem c ≡ T * hits w.cell c w.iters
  joined_exact {s} r j c =
      (Run-Inv r).exact c
      ∙ total_const (made w.cell c) T (hits w.cell c w.iters) s.pc (λ t lt. rw (j t lt))
