-- ===== src/Race/Values.antt =====
-- Which values the racy counter may have after the join.
use linux_page_cache_lab.Base.{
  ℕ, zero, suc, ◌+◌, ◌-◌, ◌*◌, ◌≤◌, ◌<◌, ◌≡◌, ◌≢◌, refl, ◌∙◌, arith, ◌==◌, leb, if◌then◌else◌,
  update, total, total_const, Star, here, next, Star-trans, Star-keeps, dec_le, ℕ_discrete,
}
use linux_page_cache_lab.Race.{at, loaded, System, init, RacyStep, load, store, Joined}
use linux_page_cache_lab.Race.Atomic.{rounds, racy_bound}
use linux_page_cache_lab.Race.Advance.{advance, advance_all}

module _ (n T : ℕ) (two_rounds : 2 ≤ n) where
  -- A thread with a round behind it has seen a counter of 1 at least.
  record Low (s : System) : Type 0 where
    started : (t : ℕ) → t < T → 1 ≤ rounds (s.pc t) → 1 ≤ s.counter
    read : (t i v : ℕ) → t < T → s.pc t ≡ loaded i v → 1 ≤ i → 1 ≤ v
    ended : 0 < T → Joined n T s → 2 ≤ s.counter

  RacyStep-Low : (s s' : System) → RacyStep n T s s' → Low s → Low s'
  RacyStep-Low s s' (load t i lt e more) l = record {
    started = λ u h r. ground (arith, l.started u h, l.started t lt);
    read = λ u j v h g one. ground (arith, l.read u j v h, l.started t lt);
    ended = λ some j. ground (arith, j t lt);
  }
  RacyStep-Low s s' (store t i v lt e) l = record {
    started = λ u h r. omega arith;
    read = λ u j x h g one. ground (arith, l.read u j x h);
    ended = λ some j. ground (arith, j t lt, l.read t i v lt e);
  }

  Low-init : Low init
  Low-init = record {
    started = λ t lt h. absurd (omega arith);
    read = λ t i v lt h one. cc;
    ended = λ some j. ground (arith, j 0 some);
  }

  -- After the join of a thread or more, with two rounds or more, the racy counter is between 2 and the
  -- number of all increments.
  pub racy_bounds :
      {s : System}
      → 0 < T
      → Star (RacyStep n T) init s
      → Joined n T s
      → (2 ≤ s.counter) × (s.counter ≤ T * n)
  racy_bounds some r j = ((Star-keeps Low RacyStep-Low r Low-init).ended some j, racy_bound n T r j)

-- The last thread, `z`, reads the counter in its last round and writes it back when all others have returned.
record Ended (n z : ℕ) (s : System) (more less : ℕ) : Type 0 where
  last : System
  run : Star (RacyStep n (suc z)) s last
  joined : Joined n (suc z) last
  counted : last.counter + less ≡ s.counter + more + 1

end_with :
    (m z : ℕ) (f g : ℕ → ℕ) (s : System)
    → ((u : ℕ) → f u ≤ g u)
    → ((u : ℕ) → g u ≤ suc m)
    → ((u : ℕ) → u < z → s.pc u ≡ at (f u))
    → s.pc z ≡ at m
    → Ended (suc m) z s (total (λ (x : ℕ). x) z g) (total (λ (x : ℕ). x) z f)
end_with m z f g s up small e ez =
    let a = advance_all (suc m) (suc z) f g z s (omega arith) up small e in
    let read : System = record (a.last) { pc = update a.last.pc z (loaded m a.last.counter) } in
    let b =
      advance_all (suc m) (suc z) g (λ u. suc m) z read (omega arith) small (λ u. omega arith)
        (λ u h. ground (arith, a.done u h)) in
    record {
      last = record { counter = a.last.counter + 1; pc = update b.last.pc z (at (m + 1)) };
      run =
          next
            (Star-trans
              (next a.run (load z m (omega arith) (a.others z (omega arith) ∙ ez) (omega arith)))
              b.run)
            (store z m a.last.counter (omega arith) (b.others z (omega arith) ∙ (ground arith)));
      joined = λ u h. elim (ℕ_discrete z u) [
        | yes same ↦ ground arith
        | no other ↦ ground (arith, b.done u)
      ];
      counted = omega (arith, a.counted);
    }

-- `j` rounds shared out: as many as there are to each thread in turn.
abbrev shared_out : (n j : ℕ) → ℕ → ℕ
shared_out n j u = if leb n (j - u * n) then n else j - u * n

total-shared_out :
    (n j z : ℕ) → total (λ (x : ℕ). x) z (shared_out n j) ≡ (if leb (z * n) j then z * n else j)
unfolding total
total-shared_out n j zero = ground arith
total-shared_out n j (suc z) =
    let whole : suc z * n ≡ z * n + n = grind arith in ground (arith, total-shared_out n j z, whole)

-- All threads but the last share out what the value needs beyond the rounds of the last.
high_value :
    (m z v : ℕ)
    → suc m ≤ v
    → v ≤ suc z * suc m
    → (s : System) × Star (RacyStep (suc m) (suc z)) init s
      × Joined (suc m) (suc z) s
      × (s.counter ≡ v)
high_value m z v least most =
    let a = advance (suc m) (suc z) m 0 z init (omega arith) refl (omega arith) in
    let b =
      end_with m z (λ u. 0) (shared_out (suc m) (v - suc m)) a.last (λ u. omega arith)
        (λ u. ground arith) (λ u h. a.others u (omega arith)) (a.done ∙ (ground arith)) in
    let whole : suc z * suc m ≡ z * suc m + suc m = grind arith in
    (
      b.last,
      Star-trans a.run b.run,
      b.joined,
      ground (
        arith,
        a.counted,
        b.counted,
        total-shared_out (suc m) (v - suc m) z,
        total_const (λ (x : ℕ). x) z 0 (λ u. 0) (λ k h. refl),
      ),
    )

-- Thread 0 has read 0, the last thread runs all its rounds but `k + 1`, and thread 0 then writes 1.
record Reset (m z k : ℕ) : Type 0 where
  last : System
  run : Star (RacyStep (suc m) (suc z)) init last
  first : last.pc 0 ≡ at 1
  at_last : last.pc z ≡ at m
  others : (u : ℕ) → 0 ≢ u → z ≢ u → last.pc u ≡ at 0
  counted : last.counter ≡ 1 + k

reset : (m z k : ℕ) → 1 ≤ z → k ≤ m → Reset m z k
reset m z k some le =
    let read : System = record init { pc = update init.pc 0 (loaded 0 0) } in
    let a = advance (suc m) (suc z) (m - k) 0 z read (omega arith) (ground arith) (omega arith) in
    let wrote : System = record { counter = 1; pc = update a.last.pc 0 (at 1) } in
    let b =
      advance (suc m) (suc z) k (m - k) z wrote (omega arith) (ground (arith, a.done))
        (omega arith) in
    record {
      last = b.last;
      run =
          Star-trans
            (next (Star-trans (next here (load 0 0 (omega arith) refl (omega arith))) a.run)
              (store 0 0 0 (omega arith) (a.others 0 (omega arith) ∙ (ground arith))))
            b.run;
      first = b.others 0 (omega arith) ∙ (ground arith);
      at_last = b.done ∙ (ground arith);
      others = λ u d e. ground (arith, b.others u e, a.others u e);
      counted = b.counted;
    }

-- Thread 0 has completed a round, the others none.
abbrev first_one : ℕ → ℕ
first_one u = if u == 0 then 1 else 0

-- The first thread takes the counter back to 1 in between.
low_value :
    (m z v : ℕ)
    → 1 ≤ z
    → 2 ≤ v
    → v ≤ suc (suc m)
    → (s : System) × Star (RacyStep (suc m) (suc z)) init s
      × Joined (suc m) (suc z) s
      × (s.counter ≡ v)
low_value m z v some least most =
    let a = reset m z (v - 2) some (omega arith) in
    let b =
      end_with m z first_one first_one a.last (λ u. omega arith) (λ u. ground arith)
        (λ u h. elim (ℕ_discrete 0 u) [
          | yes same ↦ ground (arith, a.first)
          | no other ↦ a.others u other (omega arith) ∙ (ground arith)
        ])
        a.at_last in
    (b.last, Star-trans a.run b.run, b.joined, omega (arith, a.counted, b.counted))

-- With two threads or more of two rounds or more each, every number from 2 to that of all increments is what the
-- racy counter holds after the join of some run.
pub racy_values :
    (n T v : ℕ)
    → 2 ≤ n
    → 2 ≤ T
    → 2 ≤ v
    → v ≤ T * n
    → (s : System) × Star (RacyStep n T) init s × Joined n T s × (s.counter ≡ v)
racy_values (suc m) (suc z) v two_rounds two_threads least most = elim (dec_le (suc m) v) [
  | yes high ↦ high_value m z v high most
  | no low ↦ low_value m z v (omega arith) least (omega arith)
]
racy_values zero T v two_rounds two_threads least most = absurd (omega arith)
racy_values (suc m) zero v two_rounds two_threads least most = absurd (omega arith)
