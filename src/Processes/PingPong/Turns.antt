-- ===== src/Processes/PingPong/Turns.antt =====
-- The two sides take turns.
use linux_page_cache_lab.Base.{
  ℕ, ◌+◌, ◌*◌, ◌<◌, ◌≤◌, ◌≡◌, refl, arith, Bool, true, false, [], ◌∷◌, length, Star, Star-keeps,
  here, next, steps, dec_lt, ◌⊎◌, inl, inr,
}
use linux_page_cache_lab.Processes.PingPong.{
  System, init, Finished, Step, parent_writes, parent_reads, child_reads, child_writes,
}

-- Where the byte is in round `i`: with the parent, in the first pipe, with the child, in the second pipe.
pub data Turn (n : ℕ) (s : System) : Type 0 where
  ready :
      s.parent.done ≤ n
      → s.child.done ≡ s.parent.done
      → s.parent.halfway ≡ false
      → s.child.halfway ≡ false
      → s.p1 ≡ []
      → s.p2 ≡ []
      → Turn n s
  sent :
      (b : ℕ)
      → s.parent.done < n
      → s.child.done ≡ s.parent.done
      → s.parent.halfway ≡ true
      → s.child.halfway ≡ false
      → s.p1 ≡ b ∷ []
      → s.p2 ≡ []
      → Turn n s
  held :
      s.parent.done < n
      → s.child.done ≡ s.parent.done
      → s.parent.halfway ≡ true
      → s.child.halfway ≡ true
      → s.p1 ≡ []
      → s.p2 ≡ []
      → Turn n s
  echoed :
      (b : ℕ)
      → s.parent.done < n
      → s.child.done ≡ s.parent.done + 1
      → s.parent.halfway ≡ true
      → s.child.halfway ≡ false
      → s.p1 ≡ []
      → s.p2 ≡ b ∷ []
      → Turn n s

half : Bool → ℕ
half true = 1
half false = 0

module _ {n capacity : ℕ} where
  Step-Turn : (s t : System) → Step n capacity s t → Turn n s → Turn n t
  Step-Turn s t (parent_writes more h room) (ready le d p c e f) =
      sent s.parent.c (ground arith) (ground arith) refl (ground arith) (ground arith)
        (ground arith)
  Step-Turn s t (parent_writes more h room) (sent b le d p c e f) = cc
  Step-Turn s t (parent_writes more h room) (held le d p c e f) = cc
  Step-Turn s t (parent_writes more h room) (echoed b le d p c e f) = cc
  Step-Turn s t (parent_reads byte rest h g) (ready le d p c e f) = cc
  Step-Turn s t (parent_reads byte rest h g) (sent b le d p c e f) = cc
  Step-Turn s t (parent_reads byte rest h g) (held le d p c e f) = cc
  Step-Turn s t (parent_reads byte rest h g) (echoed b le d p c e f) =
      ready (ground arith) (ground arith) refl (ground arith) (ground arith) (ground arith)
  Step-Turn s t (child_reads byte rest more h g) (ready le d p c e f) = cc
  Step-Turn s t (child_reads byte rest more h g) (sent b le d p c e f) =
      held (ground arith) (ground arith) (ground arith) refl (ground arith) (ground arith)
  Step-Turn s t (child_reads byte rest more h g) (held le d p c e f) = cc
  Step-Turn s t (child_reads byte rest more h g) (echoed b le d p c e f) = cc
  Step-Turn s t (child_writes h room) (ready le d p c e f) = cc
  Step-Turn s t (child_writes h room) (sent b le d p c e f) = cc
  Step-Turn s t (child_writes h room) (held le d p c e f) =
      echoed s.child.c (ground arith) (ground arith) (ground arith) refl (ground arith)
        (ground arith)
  Step-Turn s t (child_writes h room) (echoed b le d p c e f) = cc

  pub reached-Turn : {s : System} → Star (Step n capacity) init s → Turn n s
  reached-Turn r = Star-keeps (Turn n) Step-Turn r (ready (omega arith) refl refl refl refl refl)

  -- In every reachable state the pipes hold at most one byte together, and the child is at most one round ahead
  -- of the parent and never behind it.
  pub in_turns :
      {s : System}
      → Star (Step n capacity) init s
      → (length s.p1 + length s.p2 ≤ 1)
        × (s.parent.done ≤ s.child.done)
        × (s.child.done ≤ s.parent.done + 1)
  in_turns {s = s} r = elim (reached-Turn r) [
    | ready le d p c e f ↦ ground arith
    | sent b le d p c e f ↦ ground arith
    | held le d p c e f ↦ ground arith
    | echoed b le d p c e f ↦ ground arith
  ]

  steps-progress :
      {s : System} (r : Star (Step n capacity) init s)
      → steps r
        ≡ 2 * s.parent.done + half s.parent.halfway + 2 * s.child.done + half s.child.halfway
  unfolding steps half
  steps-progress here = refl
  steps-progress (next r (parent_writes more h room)) = ground (arith, steps-progress r)
  steps-progress (next r (parent_reads byte rest h g)) = ground (arith, steps-progress r)
  steps-progress (next r (child_reads byte rest more h g)) = ground (arith, steps-progress r)
  steps-progress (next r (child_writes h room)) = ground (arith, steps-progress r)

  steps_bound : {s : System} (r : Star (Step n capacity) init s) → steps r ≤ 4 * n
  unfolding half
  steps_bound r = elim (reached-Turn r) [
    | ready le d p c e f ↦ ground (arith, steps-progress r)
    | sent b le d p c e f ↦ ground (arith, steps-progress r)
    | held le d p c e f ↦ ground (arith, steps-progress r)
    | echoed b le d p c e f ↦ ground (arith, steps-progress r)
  ]

  no_stall :
      {s : System}
      → 0 < capacity
      → Star (Step n capacity) init s
      → Finished n s ⊎ ((t : System) × Step n capacity s t)
  no_stall {s = s} room r = elim (reached-Turn r) [
    | ready le d p c e f ↦ elim (dec_lt s.parent.done n) [
      | yes more ↦ inr (_, parent_writes more p (ground arith))
      | no all ↦ inl (omega arith, omega arith, e, f)
    ]
    | sent b le d p c e f ↦ inr (_, child_reads b [] (omega arith) c e)
    | held le d p c e f ↦ inr (_, child_writes c (ground arith))
    | echoed b le d p c e f ↦ inr (_, parent_reads b [] p f)
  ]

  -- If a pipe has room for a byte, no run is longer than four calls for each round, and a run that cannot go
  -- on has finished all rounds on both sides and left both pipes empty.
  pub round_trips :
      {s : System}
      → 0 < capacity
      → (r : Star (Step n capacity) init s)
      → (steps r ≤ 4 * n) × (Finished n s ⊎ ((t : System) × Step n capacity s t))
  round_trips room r = (steps_bound r, no_stall room r)
