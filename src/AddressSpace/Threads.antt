-- ===== src/AddressSpace/Threads.antt =====
-- `demo_threads_shared_space` of labs/lab_01_threads_addr_fs.c: each of `T` threads (three in the program)
-- atomically adds 1 to `shared_global` and 10 to `heap_var`.
use linux_page_cache_lab.Base.{
  ℕ, ◌+◌, ◌*◌, ◌≤◌, ◌<◌, ◌≡◌, ◌≢◌, refl, ap, arith, ◌⊎◌, inl, inr, update, total, total-replace,
  total_const, find_ne, Star, Star-keeps, steps, steps-le,
}

-- Where a thread of `thread_func` stands.
pub data Pc : Type 0 where
  ready added_global returned : Pc

pub record System : Type 0 where
  pub shared_global : ℕ
  pub heap_var : ℕ
  pub pc : ℕ → Pc

abbrev pub init : System
init = record { shared_global = 42; heap_var = 100; pc = λ t. ready }

module _ (T : ℕ) where
  -- The two `__sync_fetch_and_add` of a thread.
  pub data Step (s : System) : System → Type 0 where
    add_global :
        (t : ℕ)
        → t < T
        → s.pc t ≡ ready
        → Step s (record s { shared_global = s.shared_global + 1; pc = update s.pc t added_global })
    add_heap :
        (t : ℕ)
        → t < T
        → s.pc t ≡ added_global
        → Step s (record s { heap_var = s.heap_var + 10; pc = update s.pc t returned })

  -- What `main` has waited for when `pthread_join` has returned for each thread.
  abbrev pub Joined : System → Type 0
  Joined s = (t : ℕ) → t < T → s.pc t ≡ returned

abbrev globals : Pc → ℕ
globals ready = 0
globals added_global = 1
globals returned = 1

abbrev heaps : Pc → ℕ
heaps ready = 0
heaps added_global = 0
heaps returned = 10

abbrev additions_left : Pc → ℕ
additions_left ready = 2
additions_left added_global = 1
additions_left returned = 0

Pc-discrete : Discrete Pc
Pc-discrete = hlevel

module _ (T : ℕ) where
  record Inv (s : System) : Type 0 where
    global_at : s.shared_global ≡ 42 + total globals T s.pc
    heap_at : s.heap_var ≡ 100 + total heaps T s.pc

  Step-Inv : (s s' : System) → Step T s s' → Inv s → Inv s'
  Step-Inv s s' (add_global t lt at) inv = record {
    global_at = omega (arith, inv.global_at, total-replace globals T s.pc t added_global lt at);
    heap_at = omega (arith, inv.heap_at, total-replace heaps T s.pc t added_global lt at);
  }
  Step-Inv s s' (add_heap t lt at) inv = record {
    global_at = omega (arith, inv.global_at, total-replace globals T s.pc t returned lt at);
    heap_at = omega (arith, inv.heap_at, total-replace heaps T s.pc t returned lt at);
  }

  Run-Inv : {s : System} → Star (Step T) init s → Inv s
  Run-Inv r = Star-keeps Inv Step-Inv r (record {
    global_at = omega (arith, total_const globals T 0 (λ t. ready) (λ k lt. refl));
    heap_at = omega (arith, total_const heaps T 0 (λ t. ready) (λ k lt. refl));
  })

  -- Whatever the schedule, after the join the threads have added 1 each to the global variable and
  -- 10 each to the variable on the main thread's stack.
  pub shared_space_exact :
      {s : System}
      → Star (Step T) init s
      → Joined T s
      → (s.shared_global ≡ 42 + T) × (s.heap_var ≡ 100 + T * 10)
  shared_space_exact {s} r joined =
      let inv = Run-Inv r in
      (
        omega
            (arith, inv.global_at, total_const globals T 1 s.pc (λ t lt. ap globals (joined t lt))),
        omega (arith, inv.heap_at, total_const heaps T 10 s.pc (λ t lt. ap heaps (joined t lt))),
      )

  find_step :
      (s : System) (t : ℕ) (p : Pc)
      → t < T
      → s.pc t ≡ p
      → p ≢ returned
      → (s' : System) × Step T s s'
  find_step s t ready lt e busy = (_, add_global t lt e)
  find_step s t added_global lt e busy = (_, add_heap t lt e)
  find_step s t returned lt e busy = absurd (busy refl)

  Step-left :
      (s s' : System) → Step T s s' → total additions_left T s'.pc < total additions_left T s.pc
  Step-left s s' (add_global t lt at) =
      omega (arith, total-replace additions_left T s.pc t added_global lt at)
  Step-left s s' (add_heap t lt at) =
      omega (arith, total-replace additions_left T s.pc t returned lt at)

  -- Whatever the schedule, a run has at most two steps for each of the `T` threads, and where no step is left all have
  -- returned, and they have added 1 each to `shared_global` and 10 each to `heap_var`.
  pub shared_space_complete :
      {s : System} (r : Star (Step T) init s)
      → (steps r ≤ T * 2)
        × ((Joined T s × (s.shared_global ≡ 42 + T) × (s.heap_var ≡ 100 + T * 10))
            ⊎ ((s' : System) × Step T s s'))
  shared_space_complete {s} r = (
    omega (
      arith,
      steps-le (λ s. total additions_left T s.pc) Step-left r,
      total_const additions_left T 2 init.pc (λ t lt. refl),
    ),
    elim (find_ne Pc-discrete returned s.pc T) [
      | inl (t, lt, busy) ↦ inr (find_step s t (s.pc t) lt refl busy)
      | inr all ↦
          let (global_sum, heap_sum) = shared_space_exact r all in inl (all, global_sum, heap_sum)
    ],
  )
