-- ===== src/Rcu.antt =====
-- labs/lab_36_rcu_lockfree.c: `global_data`, which an update replaces by a new node before it frees the old one.
-- `malloc` is a parameter that gives an address for the heap as it stands.
pub mod Versions
use linux_page_cache_lab.Base.{
  ℕ, zero, suc, ◌+◌, Option, none, some, List, [], ◌∷◌, ◌++◌, update, ◌%◌, ◌^◌,
}

-- `data_t`.
pub record Node : Type 0 where
  pub version : ℕ
  pub value : ℕ

-- The nodes given by `malloc` and not freed, and the address in `global_data`.
pub record Memory : Type 0 where
  pub heap : ℕ → Option Node
  pub global_data : ℕ

-- What `rcu_read` prints; `none` is the read of a node that is not there.
abbrev pub rcu_read : Memory → Option Node
rcu_read m = m.heap m.global_data

abbrev pub empty : ℕ → Option Node
empty a = none

module _ (malloc : (ℕ → Option Node) → ℕ) where
  -- `new_d` is filled, published and `old` freed, in this order; `none` is a fault.
  unfoldable pub rcu_update : (new_val : ℕ) → Memory → Option Memory
  rcu_update new_val m =
      let new_d = malloc m.heap in
      elim (m.heap m.global_data) [
        | none ↦ none
        | some old ↦ some (record {
          heap =
              update
                (update m.heap new_d (some (record { version = old.version + 1; value = new_val })))
                m.global_data none;
          global_data = new_d;
        })
      ]

  abbrev pub first_node : Memory
  first_node =
      let init = malloc empty in
      record {
        heap = update empty init (some (record { version = 0; value = 0 }));
        global_data = init;
      }

  -- A read, and then for each value an update and a read, as `main` makes them: what is read, and the memory left.
  unfoldable pub reads_from : List ℕ → Memory → Option (List Node × Memory)
  unfolding rcu_update
  reads_from [] m = elim (rcu_read m) [ none ↦ none | some node ↦ some (node ∷ [], m) ]
  reads_from (v ∷ vs) m = elim (rcu_read m) [
    | none ↦ none
    | some node ↦ elim (rcu_update v m) [
      | none ↦ none
      | some m' ↦ elim (reads_from vs m') [
        | none ↦ none
        | some (nodes, end) ↦ some (node ∷ nodes, end)
      ]
    ]
  ]

  -- Phase 1 of `main`.
  abbrev pub phase : Option (List Node × Memory)
  phase = reads_from (42 ∷ 99 ∷ []) first_node

-- Phase 4: the two increments of `gen_counter`, an `atomic_uint` of 32 bits, and the three values that are printed.
abbrev pub generations : (gen_counter : ℕ) → List ℕ
generations gen_counter =
    let old_gen = gen_counter in
    let after = (gen_counter + 1) % 2 ^ 32 in
    (old_gen + 1) % 2 ^ 32 ∷ (old_gen + 1) % 2 ^ 32 ∷ (after + 1) % 2 ^ 32 ∷ []
