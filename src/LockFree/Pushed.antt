-- ===== src/LockFree/Pushed.antt =====
-- While threads only push: the nodes from the top on hold exactly what the finished pushes have pushed.
use mathlib.Core.Path.{subst}
use mathlib.Core.Logic.{ite}
use linux_page_cache_lab.Base.{
  ℕ, zero, suc, ◌+◌, ◌*◌, ◌≤◌, ◌<◌, ◌≡◌, ◌≢◌, refl, sym, ◌∙◌, ap, arith, false, Option, none, some,
  List, [], ◌∷◌, update, total, total-update, total_const, ℕ_discrete, Star, Star-keeps,
}
use linux_page_cache_lab.LockFree.{
  Node, Heap, Pc, idle, allocated, linked, seen, next_read, swapped, System, init, Step, alloc,
  link, push_swaps, push_retries, load_top, load_empty, read_next, pop_swaps, pop_retries,
  pop_finds_empty, frees, Joined, done_of,
}
use linux_page_cache_lab.LockFree.Chain.{Chain, Chain-map}

-- Who may write a node: nobody has it, a thread that has not yet published it, or it is in the stack.
pub data Mark : Type 0 where
  unused : Mark
  owned : (t : ℕ) → Mark
  public : Mark

-- The sum of weights over the values of a list, and over the values 0 … d - 1.
unfoldable pub weigh : (ℕ → ℕ) → List ℕ → ℕ
weigh w [] = 0
weigh w (v ∷ vs) = w v + weigh w vs

unfoldable pub below : (ℕ → ℕ) → ℕ → ℕ
below w zero = 0
below w (suc d) = w d + below w d

abbrev pub pushed_by : (ℕ → ℕ) → Pc → ℕ
pushed_by w pc = below w (done_of pc)

-- What holds of a thread that stands at a point of `push`.
abbrev pub Good : Heap → (ℕ → Mark) → (items t : ℕ) → Pc → Type 0
Good h mark items t (idle done) = done ≤ items
Good h mark items t (allocated i n) = (i < items) × (mark n ≡ owned t)
Good h mark items t (linked i n old) =
    (i < items) × (mark n ≡ owned t) × (h n ≡ some (record { val = i; next = old }))
Good h mark items t (seen i old) = ⊥
Good h mark items t (next_read i old next) = ⊥
Good h mark items t (swapped i old) = ⊥

pub record Inv (T items : ℕ) (s : System) : Type 0 where
  pub mark : ℕ → Mark
  pub vals : List ℕ
  pub fresh : (a : ℕ) → s.heap a ≡ none → mark a ≡ unused
  pub chain : Chain s.heap (λ a. mark a ≡ public) s.top vals
  pub sums : (w : ℕ → ℕ) → weigh w vals ≡ total (pushed_by w) T s.pc
  pub threads : (t : ℕ) → t < T → Good s.heap mark items t (s.pc t)

-- A write to a node of another thread.
Good-kept :
    {h h' : Heap} {mark mark' : ℕ → Mark} (items u n : ℕ) (pc : Pc)
    → ((a : ℕ) → a ≢ n → h' a ≡ h a)
    → ((a : ℕ) → a ≢ n → mark' a ≡ mark a)
    → mark n ≢ owned u
    → Good h mark items u pc
    → Good h' mark' items u pc
Good-kept {mark = mark} items u n (idle done) same marks out g = g
Good-kept {mark = mark} items u n (allocated i m) same marks out g =
    (g.0, marks m (λ e. out (ap mark (sym e) ∙ g.1)) ∙ g.1)
Good-kept {mark = mark} items u n (linked i m old) same marks out g =
    let apart : m ≢ n = λ e. out (ap mark (sym e) ∙ g.1) in
    (g.0, marks m apart ∙ g.1, same m apart ∙ g.2)
Good-kept items u n (seen i old) same marks out g = g
Good-kept items u n (next_read i old next) same marks out g = g
Good-kept items u n (swapped i old) same marks out g = g

module _ {T items : ℕ} {s : System} (v : Inv T items s) (t : ℕ) (inside : t < T) where
  pub at_pc : {pc : Pc} → s.pc t ≡ pc → Good s.heap v.mark items t pc
  at_pc e = subst (Good s.heap v.mark items t) e (v.threads t inside)

  -- A thread that moves on and writes at most the node `n`, which no other thread owns.
  others-kept :
      {h' : Heap} {mark' : ℕ → Mark} (n : ℕ) (new : Pc)
      → ((a : ℕ) → a ≢ n → h' a ≡ s.heap a)
      → ((a : ℕ) → a ≢ n → mark' a ≡ v.mark a)
      → ((u : ℕ) → t ≢ u → v.mark n ≢ owned u)
      → Good h' mark' items t new
      → (u : ℕ) → u < T
      → Good h' mark' items u (update s.pc t new u)
  others-kept {h' = h'} {mark' = mark'} n new same marks out g u within =
      elim (ℕ_discrete t u) as (λ d. Good h' mark' items u (ite d new (s.pc u))) [
        | yes e ↦ subst (λ (k : ℕ). Good h' mark' items k new) e g
        | no e ↦ Good-kept items u n (s.pc u) same marks (out u e) (v.threads u within)
      ]

  sums-kept :
      (new : Pc)
      → done_of new ≡ done_of (s.pc t)
      → (w : ℕ → ℕ) → weigh w v.vals ≡ total (pushed_by w) T (update s.pc t new)
  sums-kept new e w =
      omega (arith, v.sums w, total-update (pushed_by w) T s.pc t new inside, ap (below w) e)

  -- A node that is not in the stack is written.
  write-Inv :
      (n : ℕ) (node : Node) (new : Pc)
      → done_of new ≡ done_of (s.pc t)
      → v.mark n ≢ public
      → ((u : ℕ) → t ≢ u → v.mark n ≢ owned u)
      → Good (update s.heap n (some node)) (update v.mark n (owned t)) items t new
      → Inv T items (record s { heap = update s.heap n (some node); pc = update s.pc t new })
  write-Inv n node new e hidden out g = record {
    mark = update v.mark n (owned t);
    vals = v.vals;
    fresh = λ a. still_fresh a (ℕ_discrete n a);
    chain =
        Chain-map (λ a p. old a (ℕ_discrete n a) p) (λ a p. old_mark a (ℕ_discrete n a) p) v.chain;
    sums = sums-kept new e;
    threads = others-kept n new (λ a ne. ground arith) (λ a ne. ground arith) out g;
  }
    where
      still_fresh :
          (a : ℕ)
          → Dec (n ≡ a)
          → update s.heap n (some node) a ≡ none
          → update v.mark n (owned t) a ≡ unused
      still_fresh a (yes same) h = ground arith
      still_fresh a (no other) h = ground (arith, v.fresh a)

      old : (a : ℕ) → Dec (n ≡ a) → v.mark a ≡ public → update s.heap n (some node) a ≡ s.heap a
      old a (yes same) p = absurd (hidden (ap v.mark same ∙ p))
      old a (no other) p = ground arith

      old_mark : (a : ℕ) → Dec (n ≡ a) → v.mark a ≡ public → update v.mark n (owned t) a ≡ public
      old_mark a (yes same) p = absurd (hidden (ap v.mark same ∙ p))
      old_mark a (no other) p = ground arith

  push-Inv :
      (i n : ℕ) (old : Option ℕ)
      → s.pc t ≡ linked i n old
      → s.top ≡ old
      → Inv T items (record s { top = some n; pc = update s.pc t (idle (i + 1)) })
  unfolding weigh below
  push-Inv i n old e tops =
      let g = at_pc e in
      record {
        mark = update v.mark n public;
        vals = i ∷ v.vals;
        fresh = λ a h. ground (arith, v.fresh a h, g.2);
        chain = Chain.link g.2 (ground arith) (
            subst (λ (p : Option ℕ). Chain s.heap (λ a. update v.mark n public a ≡ public) p v.vals)
              tops (Chain-map (λ a p. refl) (λ a p. ground arith) v.chain));
        sums = λ w.
            ground (arith, v.sums w, e, total-update (pushed_by w) T s.pc t (idle (i + 1)) inside);
        threads =
            others-kept n (idle (i + 1)) (λ a ne. refl) (λ a ne. ground arith)
              (λ u ne o. absurd (ne (cc))) (ground (arith, g.0));
      }

module _ {T items : ℕ} where
  Step-Inv : (s u : System) → Step T items false s u → Inv T items s → Inv T items u
  Step-Inv s u (alloc t i n inside more e gone) v =
      let f = v.fresh n gone in
      write-Inv v t inside n _ _ (ap done_of (sym e)) (λ p. cc) (λ k ne o. cc) (more, ground arith)
  Step-Inv s u (link t i n inside e) v =
      let g = at_pc v t inside e in
      write-Inv v t inside n _ _ (ap done_of (sym e)) (λ p. cc) (λ k ne o. absurd (ne (cc)))
        (g.0, ground arith, ground arith)
  Step-Inv s u (push_swaps t i n old inside e tops) v = push-Inv v t inside i n old e tops
  Step-Inv s u (push_retries t i n old inside e) v =
      let g = at_pc v t inside e in
      record {
        mark = v.mark;
        vals = v.vals;
        fresh = v.fresh;
        chain = v.chain;
        sums = sums-kept v t inside (allocated i n) (ap done_of (sym e));
        threads =
            others-kept v t inside n (allocated i n) (λ a ne. refl) (λ a ne. refl)
              (λ k ne o. absurd (ne (cc))) (g.0, g.1);
      }
  Step-Inv s u (load_top t i old can inside more e tops) v = cc
  Step-Inv s u (load_empty t i can inside more e tops) v = cc
  Step-Inv s u (read_next t i old node inside e f) v = absurd (at_pc v t inside e)
  Step-Inv s u (pop_swaps t i old next inside e f) v = absurd (at_pc v t inside e)
  Step-Inv s u (pop_retries t i old new next inside e f) v = absurd (at_pc v t inside e)
  Step-Inv s u (pop_finds_empty t i old next inside e f) v = absurd (at_pc v t inside e)
  Step-Inv s u (frees t i old inside e) v = absurd (at_pc v t inside e)

  init-Inv : Inv T items init
  unfolding weigh below
  init-Inv = record {
    mark = λ a. unused;
    vals = [];
    fresh = λ a h. refl;
    chain = Chain.end;
    sums = λ w. omega (arith, total_const (pushed_by w) T 0 (λ t. idle 0) (λ k inside. refl));
    threads = λ t inside. omega arith;
  }

  pub reached-Inv : {s : System} → Star (Step T items false) init s → Inv T items s
  reached-Inv r = Star-keeps (Inv T items) Step-Inv r init-Inv

  pub joined_sums :
      {s : System} (v : Inv T items s)
      → Joined T items s
      → (w : ℕ → ℕ) → weigh w v.vals ≡ T * below w items
  joined_sums {s = s} v joined w =
      v.sums w
      ∙ total_const (pushed_by w) T (below w items) s.pc
          (λ k inside. ap (pushed_by w) (joined k inside))
