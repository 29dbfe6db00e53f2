-- ===== src/PageCache/Partition.antt =====
-- How `main` of labs/page_cache_models.c splits the file among its workers.
use linux_page_cache_lab.Base.{
  ℕ, ◌+◌, ◌-◌, ◌*◌, ◌/◌, ◌≤◌, ◌<◌, ◌≡◌, arith, ◌==◌, if◌then◌else◌, ◌&&◌, dec_lt, ltb,
}
use linux_page_cache_lab.PageCache.{WorkerArg}

module _ (size total_workers : ℕ) where
  abbrev pub slice : ℕ
  slice = size / total_workers

  -- `args[i]`: the last worker takes what the division leaves over.
  unfoldable pub args : ℕ → WorkerArg
  args i = record {
    start = i * slice;
    end = if i == total_workers - 1 then size else (i + 1) * slice;
    id = i;
  }

  pub slices_fit : (j : ℕ) → j ≤ total_workers → j * slice ≤ size
  slices_fit j h = grind arith

  start_mono : (i j : ℕ) → i ≤ j → i * slice ≤ j * slice
  start_mono i j h = grind arith

  -- With a worker `i`, the ranges start at 0 and end at the end of the file; range `i` does not run
  -- backwards, lies in the file, and ends where the next one starts or, for the last, at the end of the file.
  pub args_cover :
      (i : ℕ)
      → i < total_workers
      → ((args 0).start ≡ 0)
        × ((args (total_workers - 1)).end ≡ size)
        × ((args i).end ≡ (if i == total_workers - 1 then size else (args (i + 1)).start))
        × ((args i).start ≤ (args i).end)
        × ((args i).end ≤ size)
  unfolding args
  args_cover i h = (
    omega arith,
    ground arith,
    ground arith,
    ground (arith, slices_fit i, start_mono i (i + 1)),
    ground (arith, slices_fit (i + 1)),
  )

  abbrev pub Owns : ℕ → ℕ → Type 0
  Owns i x = (i < total_workers) × ((args i).start ≤ x) × (x < (args i).end)

  -- The worker whose slice holds an offset.
  owner : ℕ → ℕ
  owner x =
      if ltb 0 slice && ltb (x / slice) (total_workers - 1) then x / slice else total_workers - 1

  div_bounds : (x : ℕ) → 0 < slice → (x / slice * slice ≤ x) × (x < (x / slice + 1) * slice)
  div_bounds x wide = (grind arith, grind arith)

  owner_lem : (x : ℕ) → 0 < total_workers → x < size → Owns (owner x) x
  unfolding args owner
  owner_lem x some_worker inside = elim (dec_lt 0 slice) [
    | yes wide ↦ ground (arith, div_bounds x wide, start_mono (total_workers - 1) (x / slice))
    | no narrow ↦ ground (arith, zero_slice narrow)
  ]
    where
      zero_slice : ¬ (0 < slice) → (total_workers - 1) * slice ≡ 0
      zero_slice h = grind arith

  before : (i j x : ℕ) → Owns i x → Owns j x → ¬ (i < j)
  unfolding args
  before i j x p q h = ground (arith, start_mono (i + 1) j)

  -- Every byte of the file belongs to exactly one worker's range.
  pub args_partition :
      (x : ℕ) → 0 < total_workers → x < size → (i : ℕ) × Owns i x × ((j : ℕ) → Owns j x → j ≡ i)
  args_partition x some_worker inside =
      let mine = owner_lem x some_worker inside in
      (
        owner x,
        mine,
        λ j other. omega (arith, before j (owner x) x other mine, before (owner x) j x mine other),
      )
