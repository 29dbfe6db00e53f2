-- ===== src/RwLock/Exclusion.antt =====
-- A writer is alone, and no increment is lost.
use mathlib.Core.Path.{subst}
use mathlib.Core.Logic.{ite}
use linux_page_cache_lab.Base.{
  total-replace, ℕ, ◌+◌, ◌*◌, ◌<◌, ◌≤◌, ◌≡◌, ◌≢◌, refl, ap, ◌∙◌, arith, true, false, update, total,
  total-update, le-total, total_const, ℕ_discrete, Star, Star-keeps, ◌⊎◌, inl, inr,
}
use linux_page_cache_lab.RwLock.{
  Reader, Writer, System, init, Step, rdlock, rdunlock, wrlock, load, store_unlock, reads_now,
  writes_now, stores_done,
}

-- What a writer between load and store has read is still there.
abbrev pub Fresh : ℕ → Writer → Type 0
Fresh shared (Writer.out i) = Unit {0}
Fresh shared (Writer.locked i) = Unit {0}
Fresh shared (Writer.loaded i value) = value ≡ shared

pub record Inv (R W : ℕ) (s : System) : Type 0 where
  pub readers_in : s.n_reading ≡ total reads_now R s.readers
  pub writers_in :
      (s.writing ≡ false) × (total writes_now W s.writers ≡ 0)
      ⊎ (s.writing ≡ true) × (total writes_now W s.writers ≡ 1) × (s.n_reading ≡ 0)
  pub stores : s.shared_data ≡ total stores_done W s.writers
  pub fresh : (t : ℕ) → t < W → Fresh s.shared_data (s.writers t)

-- Where nobody writes no writer is inside; where one writes the others are outside.
out-Fresh : (shared : ℕ) (w : Writer) → writes_now w ≡ 0 → Fresh shared w
out-Fresh shared (Writer.out i) e = tt
out-Fresh shared (Writer.locked i) e = tt
out-Fresh shared (Writer.loaded i value) e = absurd (omega arith)

-- Two writers inside count for two.
apart :
    (W : ℕ) (writers : ℕ → Writer) (t u : ℕ)
    → t < W
    → u < W
    → t ≢ u
    → writes_now (writers t) + writes_now (writers u) ≤ total writes_now W writers
apart W writers t u p q ne = ground (
  arith,
  total-update writes_now W writers t (Writer.out 0) p,
  le-total writes_now W (update writers t (Writer.out 0)) u q,
)

Fresh-update :
    (shared : ℕ) (writers : ℕ → Writer) (t : ℕ) (new : Writer) (k : ℕ)
    → Fresh shared new
    → (t ≢ k → Fresh shared (writers k))
    → Fresh shared (update writers t new k)
Fresh-update shared writers t new k f g =
    elim (ℕ_discrete t k) as (λ d. Fresh shared (ite d new (writers k))) [
      | yes same ↦ f
      | no other ↦ g other
    ]

init-Inv : (R W : ℕ) → Inv R W init
init-Inv R W = record {
  readers_in = omega (arith, total_const reads_now R 0 (λ t. Reader.out 0 0) (λ t h. refl));
  writers_in =
      inl (refl, omega (arith, total_const writes_now W 0 (λ t. Writer.out 0) (λ t h. refl)));
  stores = omega (arith, total_const stores_done W 0 (λ t. Writer.out 0) (λ t h. refl));
  fresh = λ t h. tt;
}

module _ {R W reads writes : ℕ} where
  Step-Inv : (s u : System) → Step R W reads writes s u → Inv R W s → Inv R W u
  Step-Inv s u (rdlock t i sum inside more e free) v = record {
    readers_in = omega (
      arith,
      v.readers_in,
      total-replace reads_now R s.readers t (Reader.reading i sum) inside e,
    );
    writers_in = elim v.writers_in [ inl w ↦ inl w | inr w ↦ cc ];
    stores = v.stores;
    fresh = v.fresh;
  }
  Step-Inv s u (rdunlock t i sum inside e) v = record {
    readers_in = omega (
      arith,
      v.readers_in,
      total-replace reads_now R s.readers t (Reader.out (i + 1) (sum + s.shared_data)) inside e,
    );
    writers_in = elim v.writers_in [ inl w ↦ inl w | inr w ↦ inr (w.0, w.1, omega (arith, w.2)) ];
    stores = v.stores;
    fresh = v.fresh;
  }
  Step-Inv s u (wrlock t i inside more e free none_in) v = record {
    readers_in = v.readers_in;
    writers_in = elim v.writers_in [
      | inl w ↦ inr (
        refl,
        omega (arith, w.1, total-replace writes_now W s.writers t (Writer.locked i) inside e),
        none_in,
      )
      | inr w ↦ cc
    ];
    stores =
        omega (arith, v.stores, total-replace stores_done W s.writers t (Writer.locked i) inside e);
    fresh =
        λ k h. Fresh-update s.shared_data s.writers t (Writer.locked i) k tt (λ ne. v.fresh k h);
  }
  Step-Inv s u (load t i inside e) v = record {
    readers_in = v.readers_in;
    writers_in = elim v.writers_in [
      | inl w ↦ inl (
        w.0,
        omega (
          arith,
          w.1,
          total-replace writes_now W s.writers t (Writer.loaded i s.shared_data) inside e,
        ),
      )
      | inr w ↦ inr (
        w.0,
        omega (
          arith,
          w.1,
          total-replace writes_now W s.writers t (Writer.loaded i s.shared_data) inside e,
        ),
        w.2,
      )
    ];
    stores = omega (
      arith,
      v.stores,
      total-replace stores_done W s.writers t (Writer.loaded i s.shared_data) inside e,
    );
    fresh = λ k h.
        Fresh-update s.shared_data s.writers t (Writer.loaded i s.shared_data) k refl
          (λ ne. v.fresh k h);
  }
  Step-Inv s u (store_unlock t i value inside e) v = record {
    readers_in = v.readers_in;
    writers_in = elim v.writers_in [
      | inl w ↦
          absurd (omega (arith, w.1, le-total writes_now W s.writers t inside, ap writes_now e))
      | inr w ↦ inl (
        refl,
        omega (arith, w.1, total-replace writes_now W s.writers t (Writer.out (i + 1)) inside e),
      )
    ];
    stores = omega (
      arith,
      subst (Fresh s.shared_data) e (v.fresh t inside),
      v.stores,
      total-replace stores_done W s.writers t (Writer.out (i + 1)) inside e,
    );
    fresh = λ k h.
        Fresh-update (value + 1) s.writers t (Writer.out (i + 1)) k tt
          (λ ne. out-Fresh (value + 1) (s.writers k) (alone k h ne));
  }
    where
      alone : (k : ℕ) → k < W → t ≢ k → writes_now (s.writers k) ≡ 0
      alone k h ne = elim v.writers_in [
        | inl w ↦ omega (arith, w.1, apart W s.writers t k inside h ne)
        | inr w ↦ omega (arith, w.1, apart W s.writers t k inside h ne, ap writes_now e)
      ]

  pub reached-Inv : {s : System} → Star (Step R W reads writes) init s → Inv R W s
  reached-Inv r = Star-keeps (Inv R W) Step-Inv r (init-Inv R W)

  -- In every reachable state a writer that is inside the lock is alone there: no reader is inside, and no other
  -- writer.
  pub writer_alone :
      {s : System} (t : ℕ)
      → Star (Step R W reads writes) init s
      → t < W
      → writes_now (s.writers t) ≡ 1
      → ((r : ℕ) → r < R → reads_now (s.readers r) ≡ 0)
        × ((k : ℕ) → k < W → t ≢ k → writes_now (s.writers k) ≡ 0)
  writer_alone {s = s} t r inside e =
      let v = reached-Inv r in
      elim v.writers_in [
        | inl w ↦ absurd (omega (arith, w.1, e, le-total writes_now W s.writers t inside))
        | inr w ↦ (
          λ k h. omega (arith, w.2, v.readers_in, le-total reads_now R s.readers k h),
          λ k h ne. omega (arith, w.1, e, apart W s.writers t k inside h ne),
        )
      ]

  -- After the join `shared_data` is the number of writers times their rounds, whatever the schedule.
  pub writes_exact :
      {s : System}
      → Star (Step R W reads writes) init s
      → ((t : ℕ) → t < W → s.writers t ≡ Writer.out writes)
      → s.shared_data ≡ W * writes
  writes_exact {s = s} r joined =
      (reached-Inv r).stores
      ∙ total_const stores_done W writes s.writers (λ t h. ap stores_done (joined t h))
