-- ===== src/RwLock/Trylock.antt =====
-- Phases 2 and 3 of labs/lab_21_lock_variations.c: one thread on a mutex, and on a recursive one. The mutexes are the
-- library's, a parameter.
use linux_page_cache_lab.Base.{
  ℕ, suc, ◌≡◌, ◌≢◌, refl, arith, false, Option, none, some, List, [], ◌∷◌, ◌==◌, if◌then◌else◌,
}
use linux_page_cache_lab.Report.{Event, says, shows}

-- `lock` gives none where it never returns; `trylock` gives its result and what it leaves.
pub record Calls (Mutex : Type 0) : Type 0 where
  pub lock : Mutex → Option Mutex
  pub trylock : Mutex → ℕ × Mutex
  pub unlock : Mutex → Mutex

abbrev pub outcome : ℕ → List Event
outcome r2 = says (if r2 == 0 then "OK" else "FAILED") ∷ []

module _ {Mutex : Type 0} (calls : Calls Mutex) where
  abbrev pub if_taken : ℕ → Mutex → Mutex
  if_taken r2 m = if r2 == 0 then calls.unlock m else m

  -- After the first `lock`.
  unfoldable pub tries : Mutex → List Event × Mutex
  tries m =
      let held = calls.trylock m in
      let free = calls.trylock (calls.unlock held.1) in
      (
        shows "EBUSY" held.0 ∷ (says (if held.0 == 0 then "OK" else "FAILED") ∷ outcome free.0),
        if_taken free.0 free.1,
      )

  unfoldable pub demo_trylock : Mutex → Option (List Event × Mutex)
  demo_trylock m = elim (calls.lock m) [ none ↦ none | some locked ↦ some (tries locked) ]

  unfoldable pub demo_recursive : Mutex → Option (List Event × Mutex)
  demo_recursive m = elim (calls.lock m) [
    | none ↦ none
    | some once ↦ elim (calls.lock once) [
      | none ↦ none
      | some twice ↦ some (says "locked twice" ∷ [], calls.unlock (calls.unlock twice))
    ]
  ]

-- How often the thread has locked a mutex, and what POSIX says of the calls of the thread that owns it.
pub record IsOwned {Mutex : Type 0} (calls : Calls Mutex) : Type 0 where
  pub depth : Mutex → ℕ
  pub lock_free : (m : Mutex) → depth m ≡ 0 → (u : Mutex) × (calls.lock m ≡ some u) × (depth u ≡ 1)
  pub trylock_free :
      (m : Mutex) → depth m ≡ 0 → ((calls.trylock m).0 ≡ 0) × (depth (calls.trylock m).1 ≡ 1)
  pub trylock_held :
      (m : Mutex) → depth m ≡ 1 → ((calls.trylock m).0 ≢ 0) × (depth (calls.trylock m).1 ≡ 1)
  pub unlock_held : (m : Mutex) (d : ℕ) → depth m ≡ suc d → depth (calls.unlock m) ≡ d

differs : (r : ℕ) → r ≢ 0 → (r == 0) ≡ false
differs r h = ground arith

-- From a free mutex, `trylock` fails while it is held and takes it once it is free, and the mutex ends free.
pub trylock_outcomes :
    {Mutex : Type 0} (calls : Calls Mutex) (owned : IsOwned calls) (m : Mutex)
    → owned.depth m ≡ 0
    → (r2 : ℕ) × (u : Mutex) × (demo_trylock calls m
        ≡ some (shows "EBUSY" r2 ∷ says "FAILED" ∷ says "OK" ∷ [], u))
      × (r2 ≢ 0)
      × (owned.depth u ≡ 0)
unfolding demo_trylock tries
trylock_outcomes calls owned m free =
    let (u, e, one) = owned.lock_free m free in
    let first = owned.trylock_held u one in
    let opened = owned.unlock_held (calls.trylock u).1 0 (first.1) in
    let second = owned.trylock_free (calls.unlock (calls.trylock u).1) opened in
    let last =
      owned.unlock_held (calls.trylock (calls.unlock (calls.trylock u).1)).1 0 (second.1) in
    (
      (calls.trylock u).0,
      calls.unlock (calls.trylock (calls.unlock (calls.trylock u).1)).1,
      rw (e, demo_trylock, tries, second.0, differs _ (first.0)) refl,
      first.0,
      last,
    )
