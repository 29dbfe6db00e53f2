-- ===== src/Paging/Strides.antt =====
-- The timed scans of labs/lab_11_tlb_hugepages.c, if their mappings succeed: what they add up. The times are not modelled. A scan
-- has a round of fuel more than there are bytes.
pub mod Sums
use linux_page_cache_lab.Base.{ℕ, ◌+◌, List, [], ◌∷◌}
use linux_page_cache_lab.Scan.{scan, memset}

-- `for (size_t i = 0; i < sz; i += step) sum += mem[i]`, from a sum of 0.
abbrev pub strided : (mem : ℕ → ℕ) (size step : ℕ) → ℕ
strided mem size step = scan step mem (size + 1) 0 size 0

-- 256 MiB.
abbrev pub pressure_size : ℕ
pressure_size = 268435456

-- The sums of `demo_tlb_pressure` over a mapping that was `mem` before its `memset`.
unfoldable pub demo_tlb_pressure : (page_size : ℕ) (mem : ℕ → ℕ) → List ℕ
demo_tlb_pressure page_size mem =
    let filled = memset mem 0 1 pressure_size in
    strided filled pressure_size page_size ∷ strided filled pressure_size 64 ∷ []

-- 128 MiB.
abbrev pub benchmark_size : ℕ
benchmark_size = 134217728

-- Those of `demo_strided_benchmark`.
unfoldable pub demo_strided_benchmark : (page_size : ℕ) (mem : ℕ → ℕ) → List ℕ
demo_strided_benchmark page_size mem =
    let filled = memset mem 0 1 benchmark_size in
    strided filled benchmark_size 1
    ∷ strided filled benchmark_size 64
    ∷ strided filled benchmark_size page_size
    ∷ strided filled benchmark_size 2097152
    ∷ []
