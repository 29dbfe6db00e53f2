-- ===== src/Semaphores/Order.antt =====
-- The items of labs/lab_23_mpmc_semaphore.c come out in the order in which they went in.
use linux_page_cache_lab.Base.{
  ℕ, suc, ◌+◌, ◌≤◌, ◌<◌, ◌≡◌, refl, sym, ◌∙◌, ap, arith, [], ◌∷◌, ◌++◌, update, total, total-update,
  le-total, total_const, Star, Star-keeps, numbers,
}
use linux_page_cache_lab.Semaphores.Ring.{Holds, put-Holds, take-Holds}
use linux_page_cache_lab.Semaphores.{
  Pc, at, entered, left, System, init, put, take, taken, Step, wait_empty, puts, post_full,
  wait_full, takes, post_empty, buf_size,
}

-- Threads past `sem_wait`, threads past their section, and rounds whose section is done.
abbrev pub in_section : Pc → ℕ
in_section (at i) = 0
in_section (entered i) = 1
in_section (left i) = 0

abbrev pub leaving : Pc → ℕ
leaving (at i) = 0
leaving (entered i) = 0
leaving (left i) = 1

abbrev pub sections : Pc → ℕ
sections (at i) = i
sections (entered i) = i
sections (left i) = i + 1

module _ (P C : ℕ) where
  pub record Inv (s : System) : Type 0 where
    pub holds : Holds s.sh
    pub slots :
        s.empty_slots + s.sh.total_produced + total in_section P s.ps + total leaving C s.cs
        ≡ 5 + s.sh.total_consumed
    pub filled :
        s.full_slots + s.sh.total_consumed + total in_section C s.cs + total leaving P s.ps
        ≡ s.sh.total_produced
    pub produced : s.sh.total_produced ≡ total sections P s.ps
    pub consumed : s.sh.total_consumed ≡ total sections C s.cs
    pub printed : s.log ≡ numbers s.sh.total_consumed

  -- What a move of one thread does to the three sums.
  record Moved (n : ℕ) (f : ℕ → Pc) (t : ℕ) (old new : Pc) : Type 0 where
    section :
        total in_section n (update f t new) + in_section old ≡ total in_section n f + in_section new
    leave : total leaving n (update f t new) + leaving old ≡ total leaving n f + leaving new
    count : total sections n (update f t new) + sections old ≡ total sections n f + sections new

  moved : (n : ℕ) (f : ℕ → Pc) (t : ℕ) (old new : Pc) → t < n → f t ≡ old → Moved n f t old new
  moved n f t old new lt e = record {
    section =
        ap (λ p. total in_section n (update f t new) + in_section p) (sym e)
        ∙ total-update in_section n f t new lt;
    leave =
        ap (λ p. total leaving n (update f t new) + leaving p) (sym e)
        ∙ total-update leaving n f t new lt;
    count =
        ap (λ p. total sections n (update f t new) + sections p) (sym e)
        ∙ total-update sections n f t new lt;
  }

  one_inside : (n : ℕ) (f : ℕ → Pc) (t i : ℕ) → t < n → f t ≡ entered i → 1 ≤ total in_section n f
  one_inside n f t i lt e = omega (arith, le-total in_section n f t lt, ap in_section e)

  -- A thread past its `sem_wait` finds a free place, or an item.
  pub room :
      {s : System} (t i : ℕ)
      → Inv s
      → t < P
      → s.ps t ≡ entered i
      → s.sh.total_produced < s.sh.total_consumed + 5
  room {s} t i inv lt e = omega (arith, inv.slots, one_inside P s.ps t i lt e)

  pub some_item :
      {s : System} (t i : ℕ)
      → Inv s
      → t < C
      → s.cs t ≡ entered i
      → s.sh.total_consumed < s.sh.total_produced
  some_item {s} t i inv lt e = omega (arith, inv.filled, one_inside C s.cs t i lt e)

  succ : (n : ℕ) → suc n ≡ n + 1
  succ n = omega arith

  pub Step-Inv : (s s' : System) → Step P C s s' → Inv s → Inv s'
  unfolding put take numbers
  Step-Inv s s' (wait_empty t i e lt at_i more free) inv =
      let m = moved P s.ps t (at i) (entered i) lt at_i in
      record {
        holds = inv.holds;
        slots = omega (arith, inv.slots, m.section, free);
        filled = omega (arith, inv.filled, m.leave);
        produced = omega (arith, inv.produced, m.count);
        consumed = inv.consumed;
        printed = inv.printed;
      }
  Step-Inv s s' (puts t i lt at_i) inv =
      let m = moved P s.ps t (entered i) (left i) lt at_i in
      record {
        holds = put-Holds s.sh inv.holds (room t i inv lt at_i);
        slots = omega (arith, inv.slots, m.section);
        filled = omega (arith, inv.filled, m.leave);
        produced = omega (arith, inv.produced, m.count);
        consumed = inv.consumed;
        printed = inv.printed;
      }
  Step-Inv s s' (post_full t i lt at_i) inv =
      let m = moved P s.ps t (left i) (at (i + 1)) lt at_i in
      record {
        holds = inv.holds;
        slots = omega (arith, inv.slots, m.section);
        filled = omega (arith, inv.filled, m.leave);
        produced = omega (arith, inv.produced, m.count);
        consumed = inv.consumed;
        printed = inv.printed;
      }
  Step-Inv s s' (wait_full t i e lt at_i more full) inv =
      let m = moved C s.cs t (at i) (entered i) lt at_i in
      record {
        holds = inv.holds;
        slots = omega (arith, inv.slots, m.leave);
        filled = omega (arith, inv.filled, m.section, full);
        produced = inv.produced;
        consumed = omega (arith, inv.consumed, m.count);
        printed = inv.printed;
      }
  Step-Inv s s' (takes t i lt at_i) inv =
      let m = moved C s.cs t (entered i) (left i) lt at_i in
      let out = take-Holds s.sh inv.holds (some_item t i inv lt at_i) in
      record {
        holds = out.0;
        slots = omega (arith, inv.slots, m.leave);
        filled = omega (arith, inv.filled, m.section);
        produced = inv.produced;
        consumed = omega (arith, inv.consumed, m.count);
        printed =
            ap (λ l. l ++ (taken s.sh ∷ [])) inv.printed
            ∙ ap (λ v. numbers s.sh.total_consumed ++ (v ∷ [])) out.1
            ∙ ap numbers (succ s.sh.total_consumed);
      }
  Step-Inv s s' (post_empty t i lt at_i) inv =
      let m = moved C s.cs t (left i) (at (i + 1)) lt at_i in
      record {
        holds = inv.holds;
        slots = omega (arith, inv.slots, m.leave);
        filled = omega (arith, inv.filled, m.section);
        produced = inv.produced;
        consumed = omega (arith, inv.consumed, m.count);
        printed = inv.printed;
      }

  pub init-Inv : Inv init
  unfolding numbers
  init-Inv = record {
    holds = record {
      storage = refl;
      order = omega arith;
      fits = omega arith;
      in_at = refl;
      out_at = refl;
      items = λ j from below. absurd (omega arith);
    };
    slots = omega (arith, still P in_section refl, still C leaving refl);
    filled = omega (arith, still C in_section refl, still P leaving refl);
    produced = omega (arith, still P sections refl);
    consumed = omega (arith, still C sections refl);
    printed = refl;
  }
    where
      still : (n : ℕ) (w : Pc → ℕ) → w (at 0) ≡ 0 → total w n (λ t. at 0) ≡ 0
      still n w e = omega (arith, total_const w n 0 (λ t. at 0) (λ k lt. e))

  pub Run-Inv : {s : System} → Star (Step P C) init s → Inv s
  Run-Inv r = Star-keeps Inv Step-Inv r init-Inv

  -- In every reachable state the consumers have printed 0, 1, 2, … in order, as many as are counted
  -- as consumed; at most 5 items are in the buffer; and the two counts are the numbers of sections
  -- that the producers and the consumers have run.
  pub semaphores_in_order :
      {s : System}
      → Star (Step P C) init s
      → (s.log ≡ numbers s.sh.total_consumed)
        × (s.sh.total_consumed ≤ s.sh.total_produced)
        × (s.sh.total_produced ≤ s.sh.total_consumed + buf_size)
        × (s.sh.total_produced ≡ total sections P s.ps)
        × (s.sh.total_consumed ≡ total sections C s.cs)
  semaphores_in_order {s} r =
      let inv = Run-Inv r in
      (inv.printed, inv.holds.order, inv.holds.fits, inv.produced, inv.consumed)
