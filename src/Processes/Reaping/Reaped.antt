-- ===== src/Processes/Reaping/Reaped.antt =====
-- Every run of the children and their parent ends, with every child reaped once.
use linux_page_cache_lab.Base.{
  ℕ, zero, suc, ◌+◌, ◌<◌, ◌≤◌, ◌≡◌, refl, ap, ◌∙◌, arith, total, total-update, total-replace,
  total_const, ◌⊎◌, inl, inr, Star, here, next, steps, total-le, ◌*◌, dec_lt,
}
use linux_page_cache_lab.Processes.Reaping.{
  Child, absent, running, zombie, reaped, System, init, IsSettled, Step, forks, fork_fails, exits,
  reaps, wait_fails,
}
use linux_page_cache_lab.Processes.Reaping.Kept.{flag, occurrences, total_full, Inv, reached-Inv}

once_each :
    (n : ℕ) (s : System)
    → Inv n s
    → IsSettled n s.children
    → (k : ℕ) → k < n
    → ((s.children k ≡ reaped) × (occurrences k s.reapings ≡ 1))
      ⊎ ((s.children k ≡ absent) × (occurrences k s.reapings ≡ 0))
once_each n s v settled k inside = elim (settled k inside) [
  | inl e ↦ inl (e, v.once k ∙ ap flag e)
  | inr e ↦ inr (e, v.once k ∙ ap flag e)
]

-- Some child is still running or a zombie, or none is.
look :
    (m : ℕ) (children : ℕ → Child)
    → ((k : ℕ) × (k < m) × ((children k ≡ running) ⊎ (children k ≡ zombie))) ⊎ IsSettled m children
look zero children = inr (λ k h. absurd (omega arith))
look (suc m) children = elim (look m children) [
  | inl (k, h, e) ↦ inl (k, omega arith, e)
  | inr rest ↦ last (children m) refl rest
]
  where
    grown :
        (children m ≡ reaped) ⊎ (children m ≡ absent)
        → IsSettled m children
        → IsSettled (suc m) children
    grown e rest k h = elim (dec_lt k m) [
      | yes earlier ↦ rest k earlier
      | no newest ↦
          let same : k ≡ m = omega arith in
          elim e [ inl p ↦ inl (ap children same ∙ p) | inr p ↦ inr (ap children same ∙ p) ]
    ]

    last :
        (c : Child)
        → children m ≡ c
        → IsSettled m children
        → ((k : ℕ) × (k < suc m) × ((children k ≡ running) ⊎ (children k ≡ zombie)))
          ⊎ IsSettled (suc m) children
    last absent e rest = inr (grown (inr e) rest)
    last running e rest = inl (m, omega arith, inl e)
    last zombie e rest = inl (m, omega arith, inr e)
    last reaped e rest = inr (grown (inl e) rest)

-- The parent is never stuck.
waits_on : (n : ℕ) (s : System) → Inv n s → s.waited < n → (t : System) × Step n s t
waits_on n s v more = elim (dec_lt s.forked n) [
  | yes earlier ↦ (_, forks earlier)
  | no all ↦
      let forked : s.forked ≡ n = omega (arith, v.bounds) in
      elim (look n s.children) [
        | inl (k, inside, inl e) ↦ (_, exits k inside e)
        | inl (k, inside, inr e) ↦ (_, reaps k inside forked more e)
        | inr settled ↦ (_, wait_fails forked more settled)
      ]
]

reaped_once :
    (n : ℕ) (s : System)
    → Inv n s
    → s.waited ≡ n
    → (k : ℕ) → k < n
    → ((s.children k ≡ reaped) × (occurrences k s.reapings ≡ 1))
      ⊎ ((s.children k ≡ absent) × (occurrences k s.reapings ≡ 0))
reaped_once n s v ended k inside = elim v.count [
  | inl settled ↦ once_each n s v (settled.1) k inside
  | inr sum ↦
      once_each n s v (λ j h. inl (total_full n s.children (omega (arith, sum)) j h)) k inside
]

-- A child that has ended, whether or not the parent knows.
abbrev over : Child → ℕ
over absent = 0
over running = 0
over zombie = 1
over reaped = 1

over-le : (c : Child) → over c ≤ 1
over-le absent = omega arith
over-le running = omega arith
over-le zombie = omega arith
over-le reaped = omega arith

-- Each step is a round of a loop or the end of a child.
steps_sum :
    (n : ℕ) {s : System} (r : Star (Step n) init s)
    → steps r ≡ s.forked + s.waited + total over n s.children
unfolding steps
steps_sum n here = omega (arith, total_const over n 0 (λ k. absent) (λ k h. refl))
steps_sum n (next {t = s} r (forks more)) = omega (
  arith,
  steps_sum n r,
  total-update over n s.children s.forked running more,
  ap over ((reached-Inv n r).fresh s.forked (omega arith)),
)
steps_sum n (next r (fork_fails more)) = omega (arith, steps_sum n r)
steps_sum n (next {t = s} r (exits k inside e)) =
    omega (arith, steps_sum n r, total-replace over n s.children k zombie inside e)
steps_sum n (next {t = s} r (reaps k inside all more e)) =
    omega (arith, steps_sum n r, total-replace over n s.children k reaped inside e)
steps_sum n (next r (wait_fails all more settled)) = omega (arith, steps_sum n r)

steps_bound : (n : ℕ) {s : System} (r : Star (Step n) init s) → steps r ≤ 3 * n
steps_bound n {s = s} r = omega (
  arith,
  steps_sum n r,
  (reached-Inv n r).bounds,
  total-le over n 1 s.children (λ k h. over-le (s.children k)),
)

-- In whatever order the children end and whichever forks fail: a run has at most 3 * n steps, and in every reachable
-- state some step is possible, or the parent has made its n calls of `wait`, and then every child that was forked has
-- been reaped exactly once, and no other.
pub all_reaped :
    (n : ℕ) {s : System} (r : Star (Step n) init s)
    → (steps r ≤ 3 * n)
      × (((t : System) × Step n s t)
          ⊎ ((s.waited ≡ n)
              × ((k : ℕ)
                  → k < n
                  → ((s.children k ≡ reaped) × (occurrences k s.reapings ≡ 1))
                    ⊎ ((s.children k ≡ absent) × (occurrences k s.reapings ≡ 0)))))
all_reaped n {s = s} r =
    let v = reached-Inv n r in
    (
      steps_bound n r,
      elim (dec_lt s.waited n) [
        | yes more ↦ inl (waits_on n s v more)
        | no all ↦
            let ended : s.waited ≡ n = omega (arith, v.bounds) in
            inr (ended, reaped_once n s v ended)
      ],
    )
