-- ===== src/Processes/Reaping/Kept.antt =====
-- What a run of the children and their parent keeps.
use linux_page_cache_lab.Base.{
  ℕ, zero, suc, ◌+◌, ◌<◌, ◌≤◌, ◌≡◌, ◌≢◌, refl, sym, ap, ◌∙◌, arith, List, [], ◌∷◌, update, total,
  total-update, total-replace, total_const, ℕ_discrete, ◌⊎◌, inl, inr, Star, Star-keeps, ◌==◌,
  if◌then◌else◌, dec_lt,
}
use linux_page_cache_lab.Processes.Reaping.{
  Child, absent, running, zombie, reaped, System, init, IsSettled, Step, forks, fork_fails, exits,
  reaps, wait_fails,
}

abbrev pub flag : Child → ℕ
flag absent = 0
flag running = 0
flag zombie = 0
flag reaped = 1

unfoldable pub occurrences : ℕ → List ℕ → ℕ
occurrences k [] = 0
occurrences k (j ∷ js) = (if j == k then 1 else 0) + occurrences k js

flag-le : (c : Child) → flag c ≤ 1
flag-le absent = omega arith
flag-le running = omega arith
flag-le zombie = omega arith
flag-le reaped = omega arith

flag-reaped : (c : Child) → flag c ≡ 1 → c ≡ reaped
flag-reaped absent e = cc
flag-reaped running e = cc
flag-reaped zombie e = cc
flag-reaped reaped e = refl

total-flag-le : (n : ℕ) (children : ℕ → Child) → total flag n children ≤ n
unfolding total
total-flag-le zero children = omega arith
total-flag-le (suc n) children = omega (arith, flag-le (children n), total-flag-le n children)

-- If the sum is as large as it can be, every member counts.
pub total_full :
    (n : ℕ) (children : ℕ → Child)
    → total flag n children ≡ n
    → (k : ℕ) → k < n
    → children k ≡ reaped
unfolding total
total_full zero children e k h = absurd (omega arith)
total_full (suc n) children e k h = elim (dec_lt k n) [
  | yes earlier ↦
      total_full n children (omega (arith, flag-le (children n), total-flag-le n children)) k
        earlier
  | no last ↦
      let same : k ≡ n = omega arith in
      ap children same
      ∙ flag-reaped (children n) (omega (arith, flag-le (children n), total-flag-le n children))
]

pub record Inv (n : ℕ) (s : System) : Type 0 where
  pub bounds : (s.forked ≤ n) × (s.waited ≤ n)
  pub fresh : (k : ℕ) → s.forked ≤ k → s.children k ≡ absent
  pub once : (k : ℕ) → occurrences k s.reapings ≡ flag (s.children k)
  pub count : ((s.forked ≡ n) × IsSettled n s.children) ⊎ (s.waited ≡ total flag n s.children)

once-update :
    (children : ℕ → Child) (k j : ℕ) (new : Child)
    → flag new ≡ flag (children k)
    → flag (update children k new j) ≡ flag (children j)
once-update children k j new e = elim (ℕ_discrete k j) [
  | yes same ↦ ground (arith, ap (λ (t : ℕ). flag (children t)) same)
  | no other ↦ ground arith
]

module _ {n : ℕ} {s : System} (v : Inv n s) where
  -- A child moves between two places that are not the last.
  unreaped :
      (forked' k : ℕ) (new : Child)
      → forked' ≤ n
      → k < n
      → flag new ≡ 0
      → flag (s.children k) ≡ 0
      → ((j : ℕ) → forked' ≤ j → update s.children k new j ≡ absent)
      → ¬ ((s.forked ≡ n) × IsSettled n s.children)
      → Inv n (record s { forked = forked'; children = update s.children k new })
  unreaped forked' k new low inside e f fresh' open_still = record {
    bounds = (low, v.bounds.1);
    fresh = fresh';
    once = λ j. v.once j ∙ sym (once-update s.children k j new (e ∙ sym f));
    count = elim v.count [
      | inl settled ↦ absurd (open_still settled)
      | inr sum ↦ inr (omega (arith, sum, total-update flag n s.children k new inside))
    ];
  }

not-IsSettled :
    {n k : ℕ} {children : ℕ → Child} {c : Child}
    → k < n
    → children k ≡ c
    → c ≢ reaped
    → c ≢ absent
    → ¬ IsSettled n children
not-IsSettled {k = k} inside e a b settled = elim (settled k inside) [
  | inl r ↦ a (sym e ∙ r)
  | inr r ↦ b (sym e ∙ r)
]

Step-Inv : (n : ℕ) (s t : System) → Step n s t → Inv n s → Inv n t
unfolding occurrences
Step-Inv n s t (forks more) v =
    let gone = v.fresh s.forked (omega arith) in
    unreaped v (s.forked + 1) s.forked running (omega arith) more refl (ap flag gone)
      (λ j h. ground (arith, v.fresh j)) (λ settled. omega (arith, settled.0))
Step-Inv n s t (fork_fails more) v = record {
  bounds = (omega arith, v.bounds.1);
  fresh = λ k h. v.fresh k (omega arith);
  once = v.once;
  count = elim v.count [ inl settled ↦ absurd (omega (arith, settled.0)) | inr sum ↦ inr sum ];
}
Step-Inv n s t (exits k inside e) v =
    unreaped v s.forked k zombie (v.bounds.0) inside refl (ap flag e)
      (λ j h. ground (arith, v.fresh j h))
      (λ settled. not-IsSettled inside e (λ q. cc) (λ q. cc) (settled.1))
Step-Inv n s t (reaps k inside all more e) v = record {
  bounds = (v.bounds.0, omega arith);
  fresh = λ j h. ground (arith, v.fresh j h);
  once = λ j. one_more j;
  count = elim v.count [
    | inl settled ↦ absurd (not-IsSettled inside e (λ q. cc) (λ q. cc) (settled.1))
    | inr sum ↦ inr (omega (arith, sum, total-replace flag n s.children k reaped inside e))
  ];
}
  where
    one_more : (j : ℕ) → occurrences j (k ∷ s.reapings) ≡ flag (update s.children k reaped j)
    one_more j = ground (arith, v.once j, ap flag e)
Step-Inv n s t (wait_fails all more settled) v = record {
  bounds = (v.bounds.0, omega arith);
  fresh = v.fresh;
  once = v.once;
  count = inl (all, settled);
}

init-Inv : (n : ℕ) → Inv n init
unfolding occurrences
init-Inv n = record {
  bounds = (omega arith, omega arith);
  fresh = λ k h. refl;
  once = λ k. refl;
  count = inr (omega (arith, total_const flag n 0 (λ k. absent) (λ k h. refl)));
}

pub reached-Inv : (n : ℕ) {s : System} → Star (Step n) init s → Inv n s
reached-Inv n r = Star-keeps (Inv n) (Step-Inv n) r (init-Inv n)
