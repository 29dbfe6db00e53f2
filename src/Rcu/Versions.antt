-- ===== src/Rcu/Versions.antt =====
-- The versions that are read, and what the updates leave allocated.
use linux_page_cache_lab.Base.{
  ℕ, ◌+◌, ◌≡◌, ◌≢◌, ap, arith, Option, none, some, List, [], ◌∷◌, update,
}
use linux_page_cache_lab.Rcu.{Node, Memory, rcu_update, first_node, reads_from}

-- The nodes with the versions from `version` on: the one that holds `value`, and one for each update.
unfoldable pub numbered : (version value : ℕ) → List ℕ → List Node
numbered version value [] = record { version = version; value = value } ∷ []
numbered version value (v ∷ vs) =
    record { version = version; value = value } ∷ numbered (version + 1) v vs

-- Only the node of `global_data` is allocated.
pub record HoldsOnly (m : Memory) (node : Node) : Type 0 where
  pub there : m.heap m.global_data ≡ some node
  pub alone : (a : ℕ) → a ≢ m.global_data → m.heap a ≡ none

module _ (malloc : (ℕ → Option Node) → ℕ)
    (gives_free : (m : Memory) (node : Node)
      → HoldsOnly m node
      → m.heap (malloc m.heap) ≡ none) where
  first_node-HoldsOnly : HoldsOnly (first_node malloc) (record { version = 0; value = 0 })
  first_node-HoldsOnly = record { there = ground arith; alone = λ a ne. ground arith }

  rcu_update_lem :
      (v : ℕ) (m : Memory) (node : Node)
      → HoldsOnly m node
      → (m' : Memory) × (rcu_update malloc v m ≡ some m')
        × HoldsOnly m' (record { version = node.version + 1; value = v })
  unfolding rcu_update
  rcu_update_lem v m node held =
      let other : malloc m.heap ≢ m.global_data =
        λ e. cc (gives_free m node held, ap m.heap e, held.there) in
      (
        record {
          heap =
              update
                (update m.heap (malloc m.heap)
                  (some (record { version = node.version + 1; value = v })))
                m.global_data none;
          global_data = malloc m.heap;
        },
        ground (arith, held.there),
        record { there = ground arith; alone = λ a ne. ground (arith, held.alone a) },
      )

  reads_numbered :
      (vs : List ℕ) (m : Memory) (node : Node)
      → HoldsOnly m node
      → (end : Memory) × (last : Node) × (reads_from malloc vs m
          ≡ some (numbered node.version node.value vs, end))
        × HoldsOnly end last
  unfolding reads_from numbered
  reads_numbered [] m node held = (m, node, ground (arith, held.there), held)
  reads_numbered (v ∷ vs) m node held =
      let (m', e, held') = rcu_update_lem v m node held in
      let (end, last, f, kept) = reads_numbered vs m' _ held' in
      (end, last, ground (arith, held.there, e, f), kept)

  -- If `malloc` gives an address that is not in use as long as one node is allocated, then for any values the updates and reads meet no fault: the versions that
  -- are read count up from 0, each with its value, and at the end only the node of `global_data` is allocated.
  pub reads_count_versions :
      (vs : List ℕ)
      → (end : Memory) × (last : Node) × (reads_from malloc vs (first_node malloc)
          ≡ some (numbered 0 0 vs, end))
        × HoldsOnly end last
  reads_count_versions vs =
      reads_numbered vs (first_node malloc) (record { version = 0; value = 0 }) first_node-HoldsOnly
