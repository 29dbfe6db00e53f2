-- ===== src/Semaphores/Complete.antt =====
-- Every run of labs/lab_23_mpmc_semaphore.c ends, and who can go on.
pub mod Returned
use linux_page_cache_lab.Base.{
  ℕ, suc, ◌+◌, ◌-◌, ◌*◌, ◌≤◌, ◌<◌, ◌≡◌, ◌≢◌, sym, ◌∙◌, ap, arith, ◌⊎◌, inl, inr, numbers, total,
  total-update, total-replace, total_const, total-le, le-total, find_ne, ℕ_discrete, Star, here,
  next, Star-keeps, steps, update, update_all, refl,
}
use mathlib.Core.Path.{subst}
use linux_page_cache_lab.Semaphores.{
  Pc, at, entered, left, rounds, System, init, put, take, Step, wait_empty, puts, post_full,
  wait_full, takes, post_empty,
}
use linux_page_cache_lab.Semaphores.Order.{Inv, Run-Inv, sections, in_section, leaving}

pub Pc-discrete : Discrete Pc
Pc-discrete = hlevel ℕ_discrete

-- The steps that a thread has still to take.
abbrev to_go : Pc → ℕ
to_go (at i) = 3 * (rounds - i)
to_go (entered i) = 3 * (rounds - i) - 1
to_go (left i) = 3 * (rounds - i) - 2

abbrev pub IsWithin : Pc → Type 0
IsWithin (at i) = i ≤ rounds
IsWithin (entered i) = i < rounds
IsWithin (left i) = i < rounds

module _ (P C : ℕ) where
  pub record Within (s : System) : Type 0 where
    pub producers : (t : ℕ) → IsWithin (s.ps t)
    pub consumers : (t : ℕ) → IsWithin (s.cs t)

  Step-Within : (s s' : System) → Step P C s s' → Within s → Within s'
  Step-Within s s' (wait_empty t i e lt at_i more free) w = record {
    producers = update_all IsWithin s.ps t (entered i) w.producers more;
    consumers = w.consumers;
  }
  Step-Within s s' (puts t i lt at_i) w = record {
    producers =
        update_all IsWithin s.ps t (left i) w.producers (subst IsWithin at_i (w.producers t));
    consumers = w.consumers;
  }
  Step-Within s s' (post_full t i lt at_i) w = record {
    producers =
        update_all IsWithin s.ps t (at (i + 1)) w.producers
          (let h = subst IsWithin at_i (w.producers t) in omega (arith, h));
    consumers = w.consumers;
  }
  Step-Within s s' (wait_full t i e lt at_i more full) w = record {
    producers = w.producers;
    consumers = update_all IsWithin s.cs t (entered i) w.consumers more;
  }
  Step-Within s s' (takes t i lt at_i) w = record {
    producers = w.producers;
    consumers =
        update_all IsWithin s.cs t (left i) w.consumers (subst IsWithin at_i (w.consumers t));
  }
  Step-Within s s' (post_empty t i lt at_i) w = record {
    producers = w.producers;
    consumers =
        update_all IsWithin s.cs t (at (i + 1)) w.consumers
          (let h = subst IsWithin at_i (w.consumers t) in omega (arith, h));
  }

  pub Run-Within : {s : System} → Star (Step P C) init s → Within s
  Run-Within r =
      Star-keeps Within Step-Within r
        (record { producers = λ t. omega arith; consumers = λ t. omega arith })

  pub steps_left : System → ℕ
  steps_left s = total to_go P s.ps + total to_go C s.cs

  goes_down :
      (n : ℕ) (f : ℕ → Pc) (t : ℕ) (old new : Pc)
      → t < n
      → f t ≡ old
      → to_go new < to_go old
      → total to_go n (update f t new) < total to_go n f
  goes_down n f t old new lt e less = omega (arith, total-replace to_go n f t new lt e)

  Step-left : (s s' : System) → Step P C s s' → Within s → steps_left s' < steps_left s
  unfolding steps_left
  Step-left s s' (wait_empty t i e lt at_i more free) w =
      omega (arith, goes_down P s.ps t (at i) (entered i) lt at_i (omega arith))
  Step-left s s' (puts t i lt at_i) w =
      let h = subst IsWithin at_i (w.producers t) in
      omega (arith, goes_down P s.ps t (entered i) (left i) lt at_i (omega arith))
  Step-left s s' (post_full t i lt at_i) w =
      let h = subst IsWithin at_i (w.producers t) in
      omega (arith, goes_down P s.ps t (left i) (at (i + 1)) lt at_i (omega arith))
  Step-left s s' (wait_full t i e lt at_i more full) w =
      omega (arith, goes_down C s.cs t (at i) (entered i) lt at_i (omega arith))
  Step-left s s' (takes t i lt at_i) w =
      let h = subst IsWithin at_i (w.consumers t) in
      omega (arith, goes_down C s.cs t (entered i) (left i) lt at_i (omega arith))
  Step-left s s' (post_empty t i lt at_i) w =
      let h = subst IsWithin at_i (w.consumers t) in
      omega (arith, goes_down C s.cs t (left i) (at (i + 1)) lt at_i (omega arith))

  pub steps_bound :
      {s : System} (r : Star (Step P C) init s) → steps r + steps_left s ≤ 30 * (P + C)
  unfolding steps steps_left
  steps_bound here = omega (
    arith,
    total_const to_go P 30 init.ps (λ t lt. refl),
    total_const to_go C 30 init.cs (λ t lt. refl),
  )
  steps_bound (next {t = s} r st) = omega (arith, steps_bound r, Step-left s _ st (Run-Within r))

  -- Every thread has left its loop.
  abbrev pub Joined : System → Type 0
  Joined s = ((t : ℕ) → t < P → s.ps t ≡ at rounds) × ((t : ℕ) → t < C → s.cs t ≡ at rounds)

  -- A thread past its `sem_wait` can go on; at the head of its loop it can if its semaphore is not 0.
  pub producer_moves :
      (s : System) (t : ℕ) (p : Pc)
      → t < P
      → s.ps t ≡ p
      → IsWithin p
      → p ≢ at rounds
      → 0 < s.empty_slots ⊎ (0 < in_section p + leaving p)
      → (s' : System) × Step P C s s'
  producer_moves s t (at i) lt e w busy (inl free) =
      (_, wait_empty t i (s.empty_slots - 1) lt e (ground (arith, w)) (omega arith))
  producer_moves s t (at i) lt e w busy (inr inside) = absurd (omega arith)
  producer_moves s t (entered i) lt e w busy h = (_, puts t i lt e)
  producer_moves s t (left i) lt e w busy h = (_, post_full t i lt e)

  pub consumer_moves :
      (s : System) (t : ℕ) (p : Pc)
      → t < C
      → s.cs t ≡ p
      → IsWithin p
      → p ≢ at rounds
      → 0 < s.full_slots ⊎ (0 < in_section p + leaving p)
      → (s' : System) × Step P C s s'
  consumer_moves s t (at i) lt e w busy (inl free) =
      (_, wait_full t i (s.full_slots - 1) lt e (ground (arith, w)) (omega arith))
  consumer_moves s t (at i) lt e w busy (inr inside) = absurd (omega arith)
  consumer_moves s t (entered i) lt e w busy h = (_, takes t i lt e)
  consumer_moves s t (left i) lt e w busy h = (_, post_empty t i lt e)
