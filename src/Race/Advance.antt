-- ===== src/Race/Advance.antt =====
-- Threads of `racy_inc` that run one after the other: each round adds one.
use linux_page_cache_lab.Base.{
  ℕ, zero, suc, ◌+◌, ◌-◌, ◌≤◌, ◌<◌, ◌≡◌, ◌≢◌, refl, ◌∙◌, arith, ℕ_discrete, update, total, Star,
  here, next, Star-trans,
}
use linux_page_cache_lab.Race.{at, loaded, System, RacyStep, load, store}

module _ (n T : ℕ) where
  -- Thread `t` alone has run `k` rounds.
  pub record Advanced (s : System) (t i k : ℕ) : Type 0 where
    pub last : System
    pub run : Star (RacyStep n T) s last
    pub done : last.pc t ≡ at (i + k)
    pub others : (u : ℕ) → t ≢ u → last.pc u ≡ s.pc u
    pub counted : last.counter ≡ s.counter + k

  pub advance : (k i t : ℕ) (s : System) → t < T → s.pc t ≡ at i → i + k ≤ n → Advanced s t i k
  advance zero i t s lt e h = record {
    last = s;
    run = here;
    done = e ∙ (ground arith);
    others = λ u d. refl;
    counted = omega arith;
  }
  advance (suc k) i t s lt e h =
      let s₁ : System = record s { pc = update s.pc t (loaded i s.counter) } in
      let s₂ : System = record { counter = s.counter + 1; pc = update s₁.pc t (at (i + 1)) } in
      let f = advance k (i + 1) t s₂ lt (ground arith) (omega arith) in
      record {
        last = f.last;
        run =
            Star-trans
              (next (next here (load t i lt e (omega arith)))
                (store t i s.counter lt (ground arith)))
              f.run;
        done = f.done ∙ (ground arith);
        others = λ u d. ground (arith, f.others u d);
        counted = omega (arith, f.counted);
      }

  -- The threads below `j` have come from rounds `f` to rounds `g`, one after the other.
  pub record AllAdvanced (s : System) (f g : ℕ → ℕ) (j : ℕ) : Type 0 where
    pub last : System
    pub run : Star (RacyStep n T) s last
    pub done : (u : ℕ) → u < j → last.pc u ≡ at (g u)
    pub others : (u : ℕ) → j ≤ u → last.pc u ≡ s.pc u
    pub counted : last.counter + total (λ (x : ℕ). x) j f ≡ s.counter + total (λ (x : ℕ). x) j g

  pub advance_all :
      (f g : ℕ → ℕ) (j : ℕ) (s : System)
      → j ≤ T
      → ((u : ℕ) → f u ≤ g u)
      → ((u : ℕ) → g u ≤ n)
      → ((u : ℕ) → u < j → s.pc u ≡ at (f u))
      → AllAdvanced s f g j
  unfolding total
  advance_all f g zero s le up small e = record {
    last = s;
    run = here;
    done = λ u h. absurd (omega arith);
    others = λ u h. refl;
    counted = omega arith;
  }
  advance_all f g (suc j) s le up small e =
      let a = advance_all f g j s (omega arith) up small (λ u h. e u (omega arith)) in
      let fits : f j + (g j - f j) ≤ n = omega (arith, up j, small j) in
      let b =
        advance (g j - f j) (f j) j a.last (omega arith)
          (a.others j (omega arith) ∙ e j (omega arith)) fits in
      record {
        last = b.last;
        run = Star-trans a.run b.run;
        done = λ u h. elim (ℕ_discrete j u) [
          | yes here_now ↦ ground (arith, b.done, up j)
          | no other ↦ b.others u other ∙ a.done u (omega arith)
        ];
        others = λ u h. b.others u (omega arith) ∙ a.others u (omega arith);
        counted = omega (arith, a.counted, b.counted, up j);
      }
