-- ===== src/LockFree/Complete.antt =====
-- The pushers of labs/lab_24_lockfree.c are lock-free: a swap that fails although a thread has loaded the top
-- is paid for by a swap of another thread that succeeded.
use linux_page_cache_lab.Base.{
  ℕ, ◌+◌, ◌*◌, ◌-◌, ◌≤◌, ◌<◌, ◌≡◌, ◌≢◌, refl, ◌∙◌, ap, arith, false, Option, none, some, update,
  total, total-replace, total-le, total_const, ℕ_discrete, Star, here, next, steps, find_ne, dec_lt,
  ◌⊎◌, inl, inr,
}
use linux_page_cache_lab.LockFree.{
  Pc, idle, allocated, linked, seen, next_read, swapped, System, init, Step, alloc, link,
  push_swaps, push_retries, load_top, load_empty, read_next, pop_swaps, pop_retries,
  pop_finds_empty, frees, Joined,
}
use linux_page_cache_lab.LockFree.Pushed.{Inv, at_pc, reached-Inv}

Pc-discrete : Discrete Pc
Pc-discrete = hlevel ℕ_discrete

pub top_discrete : Discrete (Option ℕ)
top_discrete = hlevel ℕ_discrete

abbrev missed : {P : Type 0} → Dec P → ℕ
missed (yes p) = 0
missed (no p) = 1

missed-le : {P : Type 0} (d : Dec P) → missed d ≤ 1
missed-le (yes p) = omega arith
missed-le (no p) = omega arith

-- One exactly if they differ.
abbrev differs : Option ℕ → Option ℕ → ℕ
differs a b = missed (top_discrete a b)

same-differs : (a b : Option ℕ) → a ≡ b → differs a b ≡ 0
same-differs a b e = elim (top_discrete a b) as (λ d. missed d ≡ 0) [
  | yes same ↦ refl
  | no other ↦ absurd (other e)
]

other-differs : (a b : Option ℕ) → a ≢ b → 1 - differs a b ≡ 0
other-differs a b other = elim (top_discrete a b) as (λ d. 1 - missed d ≡ 0) [
  | yes same ↦ absurd (other same)
  | no q ↦ refl
]

-- A thread that waits to swap a top that is no longer there.
abbrev stale : Option ℕ → Pc → ℕ
stale top (idle done) = 0
stale top (allocated done n) = 0
stale top (linked done n old) = differs top old
stale top (seen done old) = 0
stale top (next_read done old after) = 0
stale top (swapped done old) = 0

stale-le : (top : Option ℕ) (pc : Pc) → stale top pc ≤ 1
stale-le top (idle done) = omega arith
stale-le top (allocated done n) = omega arith
stale-le top (linked done n old) = missed-le (top_discrete top old)
stale-le top (seen done old) = omega arith
stale-le top (next_read done old after) = omega arith
stale-le top (swapped done old) = omega arith

-- A try of the swap that fails though the top is the one that was loaded, as a weak compare-and-swap may.
unfoldable pub spurious : {T items : ℕ} {s u : System} → Step T items false s u → ℕ
spurious {s = s} (push_retries t i n old inside e) = 1 - differs s.top old
spurious st = 0

unfoldable pub spurious_in : {T items : ℕ} {s u : System} → Star (Step T items false) s u → ℕ
spurious_in here = 0
spurious_in (next r st) = spurious_in r + spurious st

-- What a thread has done: each push earns the failures that it may cause.
abbrev worth : (T : ℕ) → Pc → ℕ
worth T (idle done) = (3 + 2 * T) * done
worth T (allocated done n) = (3 + 2 * T) * done + 1
worth T (linked done n old) = (3 + 2 * T) * done + 2
worth T (seen done old) = 0
worth T (next_read done old after) = 0
worth T (swapped done old) = 0

round-le : (T items i : ℕ) → i < items → (3 + 2 * T) * i + 3 ≤ (3 + 2 * T) * items
round-le T items i h =
    let k = items - (i + 1) in let e : items ≡ i + 1 + k = omega arith in rw e (omega arith)

whole-le : (T items i : ℕ) → i ≤ items → (3 + 2 * T) * i ≤ (3 + 2 * T) * items
whole-le T items i h = elim (dec_lt i items) [
  | yes more ↦ omega (arith, round-le T items i more)
  | no last ↦ let e : i ≡ items = omega arith in rw e (omega arith)
]

module _ {T items : ℕ} where
  steps_paid :
      {s : System} (r : Star (Step T items false) init s)
      → steps r + 2 * total (stale s.top) T s.pc ≤ total (worth T) T s.pc + 2 * spurious_in r
  unfolding steps spurious_in spurious
  steps_paid here = omega (arith, total_const (stale none) T 0 (λ t. idle 0) (λ k h. refl))
  steps_paid (next {t = s} r (alloc t i n inside more e gone)) = omega (
    arith,
    steps_paid r,
    total-replace (stale s.top) T s.pc t (allocated i n) inside e,
    total-replace (worth T) T s.pc t (allocated i n) inside e,
  )
  steps_paid (next {t = s} r (link t i n inside e)) = omega (
    arith,
    steps_paid r,
    total-replace (stale s.top) T s.pc t (linked i n s.top) inside e,
    total-replace (worth T) T s.pc t (linked i n s.top) inside e,
    same-differs s.top s.top refl,
  )
  steps_paid (next {t = s} r (push_swaps t i n old inside e tops)) = omega (
    arith,
    steps_paid r,
    total-le (stale (some n)) T 1 (update s.pc t (idle (i + 1)))
        (λ k h. stale-le (some n) (update s.pc t (idle (i + 1)) k)),
    total-replace (worth T) T s.pc t (idle (i + 1)) inside e,
  )
  steps_paid (next {t = s} r (push_retries t i n old inside e)) = omega (
    arith,
    steps_paid r,
    total-replace (stale s.top) T s.pc t (allocated i n) inside e,
    total-replace (worth T) T s.pc t (allocated i n) inside e,
    missed-le (top_discrete s.top old),
  )
  steps_paid (next r (load_top t i old can inside more e tops)) = cc
  steps_paid (next r (load_empty t i can inside more e tops)) = cc
  steps_paid (next r (read_next t i old node inside e f)) =
      absurd (at_pc (reached-Inv r) t inside e)
  steps_paid (next r (pop_swaps t i old after inside e f)) =
      absurd (at_pc (reached-Inv r) t inside e)
  steps_paid (next r (pop_retries t i old new after inside e f)) =
      absurd (at_pc (reached-Inv r) t inside e)
  steps_paid (next r (pop_finds_empty t i old after inside e f)) =
      absurd (at_pc (reached-Inv r) t inside e)
  steps_paid (next r (frees t i old inside e)) = absurd (at_pc (reached-Inv r) t inside e)

  worth-le :
      {s : System} (v : Inv T items s) (t : ℕ)
      → t < T
      → (pc : Pc) → s.pc t ≡ pc
      → worth T pc ≤ (3 + 2 * T) * items
  worth-le v t inside (idle done) e = whole-le T items done (at_pc v t inside e)
  worth-le v t inside (allocated i n) e = omega (arith, round-le T items i ((at_pc v t inside e).0))
  worth-le v t inside (linked i n old) e =
      omega (arith, round-le T items i ((at_pc v t inside e).0))
  worth-le v t inside (seen i old) e = omega arith
  worth-le v t inside (next_read i old after) e = omega arith
  worth-le v t inside (swapped i old) e = omega arith

  steps_bound :
      {s : System} (r : Star (Step T items false) init s)
      → steps r ≤ T * ((3 + 2 * T) * items) + 2 * spurious_in r
  steps_bound {s} r = omega (
    arith,
    steps_paid r,
    total-le (worth T) T ((3 + 2 * T) * items) s.pc
        (λ k h. worth-le (reached-Inv r) k h (s.pc k) refl),
  )

  -- Of finitely many nodes that are in use, the addresses have an end.
  Step-end :
      (s u : System)
      → Step T items false s u
      → Inv T items s
      → (b : ℕ) × ((a : ℕ) → b ≤ a → s.heap a ≡ none)
      → (b : ℕ) × ((a : ℕ) → b ≤ a → u.heap a ≡ none)
  Step-end s u (alloc t i n inside more e gone) v (b, free) =
      (b + n + 1, λ a h. ground (arith, free a))
  Step-end s u (link t i n inside e) v (b, free) = (b + n + 1, λ a h. ground (arith, free a))
  Step-end s u (push_swaps t i n old inside e tops) v f = f
  Step-end s u (push_retries t i n old inside e) v f = f
  Step-end s u (load_top t i old can inside more e tops) v f = f
  Step-end s u (load_empty t i can inside more e tops) v f = f
  Step-end s u (read_next t i old node inside e g) v f = f
  Step-end s u (pop_swaps t i old after inside e g) v f = f
  Step-end s u (pop_retries t i old new after inside e g) v f = f
  Step-end s u (pop_finds_empty t i old after inside e g) v f = f
  Step-end s u (frees t i old inside e) v f = absurd (at_pc v t inside e)

  heap_end :
      {s : System} (r : Star (Step T items false) init s)
      → (b : ℕ) × ((a : ℕ) → b ≤ a → s.heap a ≡ none)
  heap_end here = (0, λ a h. refl)
  heap_end (next r st) = Step-end _ _ st (reached-Inv r) (heap_end r)

  -- A thread that is not done can take a step that is no spurious failure.
  thread_moves :
      {s : System} (r : Star (Step T items false) init s) (t : ℕ)
      → t < T
      → s.pc t ≢ idle items
      → (pc : Pc) → s.pc t ≡ pc
      → (u : System) × (st : Step T items false s u) × (spurious st ≡ 0)
  unfolding spurious
  thread_moves r t inside busy (idle i) e =
      let v = reached-Inv r in
      let (b, free) = heap_end r in
      let more : i ≢ items = λ q. busy (e ∙ ap idle q) in
      (_, alloc t i b inside (omega (arith, at_pc v t inside e)) e (free b (omega arith)), refl)
  thread_moves r t inside busy (allocated i n) e = (_, link t i n inside e, refl)
  thread_moves {s} r t inside busy (linked i n old) e = elim (top_discrete s.top old) [
    | yes same ↦ (_, push_swaps t i n old inside e same, refl)
    | no other ↦ (_, push_retries t i n old inside e, other-differs s.top old other)
  ]
  thread_moves r t inside busy (seen i old) e = absurd (at_pc (reached-Inv r) t inside e)
  thread_moves r t inside busy (next_read i old after) e = absurd (at_pc (reached-Inv r) t inside e)
  thread_moves r t inside busy (swapped i old) e = absurd (at_pc (reached-Inv r) t inside e)

  -- Whatever the schedule of T threads that each push 0 … items - 1: a run has at most T * (3 + 2 * T) * items steps,
  -- and two more for each swap that fails spuriously; and where no other step than a spurious failure is left, all
  -- threads have returned.
  pub pushers_complete :
      {s : System} (r : Star (Step T items false) init s)
      → (steps r ≤ T * ((3 + 2 * T) * items) + 2 * spurious_in r)
        × (Joined T items s ⊎ ((u : System) × (st : Step T items false s u) × (spurious st ≡ 0)))
  pushers_complete {s} r = (
    steps_bound r,
    elim (find_ne Pc-discrete (idle items) s.pc T) [
      | inl (t, inside, busy) ↦ inr (thread_moves r t inside busy (s.pc t) refl)
      | inr all ↦ inl all
    ],
  )
