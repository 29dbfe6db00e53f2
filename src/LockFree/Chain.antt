-- ===== src/LockFree/Chain.antt =====
-- The nodes that are reached from a pointer.
use linux_page_cache_lab.Base.{
  ℕ, zero, suc, ◌<◌, ◌≡◌, refl, ◌∙◌, ap, arith, Option, none, some, List, [], ◌∷◌, length, update,
  ℕ_discrete,
}
use linux_page_cache_lab.LockFree.{Node, Heap, pop, pop_all}

-- The nodes from `p` on hold the values of the list, and `ok` holds of their addresses.
pub data Chain (h : Heap) (ok : ℕ → Type 0) : Option ℕ → List ℕ → Type 0 where
  end : Chain h ok none []
  link :
      {a : ℕ} {node : Node} {vs : List ℕ}
      → h a ≡ some node
      → ok a
      → Chain h ok node.next vs
      → Chain h ok (some a) (node.val ∷ vs)

-- A chain depends only on the nodes that it reaches.
pub Chain-map :
    {h h' : Heap} {ok ok' : ℕ → Type 0} {p : Option ℕ} {vs : List ℕ}
    → ((a : ℕ) → ok a → h' a ≡ h a)
    → ((a : ℕ) → ok a → ok' a)
    → Chain h ok p vs
    → Chain h' ok' p vs
Chain-map same more end = end
Chain-map same more (link {a = a} e o rest) =
    link (same a o ∙ e) (more a o) (Chain-map same more rest)

module _ {h : Heap} {ok : ℕ → Type 0} where
  -- The nodes behind a pointer determine the values.
  Chain-unique :
      {p q : Option ℕ} {vs ws : List ℕ} → p ≡ q → Chain h ok p vs → Chain h ok q ws → vs ≡ ws
  Chain-unique e end end = refl
  Chain-unique e end (link f o rest) = cc
  Chain-unique e (link f o rest) end = cc
  Chain-unique e (link {node = m} {vs = vs} f o rest) (link {node = n} {vs = ws} g u others) =
      let same : m ≡ n = cc in
      let tails : vs ≡ ws = Chain-unique (ap (λ (k : Node). k.next) same) rest others in
      ground (arith, same, tails)

  -- A shorter chain does not reach the head, and so is left alone by the head's release.
  Chain-free :
      {a : ℕ} {p : Option ℕ} {vs ws : List ℕ}
      → Chain h ok (some a) ws
      → length vs < length ws
      → Chain h ok p vs
      → Chain (update h a none) ok p vs
  Chain-free head shorter end = end
  Chain-free {a = a} {ws = ws} head shorter (link {a = b} {node = node} {vs = vs} e o rest) =
      link (kept (ℕ_discrete a b)) o (Chain-free head (omega arith) rest)
    where
      kept : Dec (a ≡ b) → update h a none b ≡ some node
      kept (yes same) =
          let whole : ws ≡ node.val ∷ vs = Chain-unique (ap some same) head (link e o rest) in
          absurd (omega (arith, ap length whole))
      kept (no other) = ground arith

-- With fuel for one round more than there are nodes, the loop pops them all and reads no freed node.
pub pop_all-Chain :
    {ok : ℕ → Type 0} (fuel : ℕ) (h : Heap) {p : Option ℕ} {vs : List ℕ}
    → length vs < fuel
    → Chain h ok p vs
    → pop_all fuel h p ≡ some vs
unfolding pop_all pop
pop_all-Chain zero h enough c = absurd (omega arith)
pop_all-Chain (suc fuel) h enough end = refl
pop_all-Chain (suc fuel) h enough (link {a = a} e o rest) = ground (
  arith,
  pop_all-Chain fuel (update h a none) (omega arith)
      (Chain-free (link e o rest) (omega arith) rest),
)
