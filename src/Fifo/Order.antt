-- ===== src/Fifo/Order.antt =====
-- What follows from the specification alone, and how an implementation is shown to meet it.
use linux_page_cache_lab.Base.{
  ℕ, ◌≤◌, ◌≡◌, refl, arith, [], ◌∷◌, ◌++◌, length, length-append, numbers, numbers-add_one, Star,
  here, next, Star-keeps, ◌∙◌, ap, sym,
}
use mathlib.Core.Path.{subst, ap₂}
use mathlib.Core.List.{append_assoc}
use linux_page_cache_lab.Fifo.{Fifo, empty, Step, enqueue, dequeue, Seen, nothing, visible}

-- Items come out in the order in which they go in, none is lost or doubled, and there is room for them.
pub record InOrder (cap : ℕ) (q : Fifo) : Type 0 where
  pub all_there : q.out ++ q.waiting ≡ numbers q.next_item
  pub fits : length q.waiting ≤ cap

Step-InOrder : (cap : ℕ) (q q' : Fifo) → Step cap q q' → InOrder cap q → InOrder cap q'
unfolding numbers
Step-InOrder cap q q' (enqueue room w n o) v = record {
  all_there =
      ap₂ ◌++◌ o w
      ∙ sym (append_assoc q.out q.waiting (q.next_item ∷ []))
      ∙ ap (λ l. l ++ (q.next_item ∷ [])) v.all_there
      ∙ sym (numbers-add_one q.next_item)
      ∙ ap numbers (sym n);
  fits = omega (arith, ap length w, length-append q.waiting (q.next_item ∷ []));
}
Step-InOrder cap q q' (dequeue x w n o) v = record {
  all_there =
      ap (λ l. l ++ q'.waiting) o
      ∙ append_assoc q.out (x ∷ []) q'.waiting
      ∙ ap (λ l. q.out ++ l) (sym w)
      ∙ v.all_there
      ∙ ap numbers (sym n);
  fits = omega (arith, ap length w, v.fits);
}

pub Fifo-InOrder : (cap : ℕ) {q : Fifo} → Star (Step cap) empty q → InOrder cap q
unfolding numbers
Fifo-InOrder cap r =
    Star-keeps (InOrder cap) (Step-InOrder cap) r (record { all_there = refl; fits = omega arith })

Seen-Star :
    (cap : ℕ) {q₀ q q' : Fifo} → Star (Step cap) q₀ q → Seen cap q q' → Star (Step cap) q₀ q'
Seen-Star cap r (visible st) = next r st
Seen-Star cap {q₀} {q} {q'} r (nothing w n o) = subst (Star (Step cap) q₀) same r
  where
    same : q ≡ q'
    same = ground arith

module _ {S : Type 0} {R : S → S → Type 0} (cap : ℕ) (view : S → Fifo) where
  -- If every step from a state that satisfies an invariant is seen as one of the queue's or not at all, so is every run.
  pub runs_refine :
      (P : S → Type 0)
      → ((s s' : S) → R s s' → P s → P s')
      → ((s s' : S) → R s s' → P s → Seen cap (view s) (view s'))
      → {s s' : S} → P s
      → Star R s s'
      → Star (Step cap) (view s) (view s')
  runs_refine P keep seen p here = here
  runs_refine P keep seen p (next r st) =
      Seen-Star cap (runs_refine P keep seen p r) (seen _ _ st (Star-keeps P keep r p))
