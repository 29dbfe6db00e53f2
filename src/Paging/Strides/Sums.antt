-- ===== src/Paging/Strides/Sums.antt =====
-- What the scans of labs/lab_11_tlb_hugepages.c add up to.
use linux_page_cache_lab.Base.{ℕ, ◌*◌, ◌≤◌, ◌<◌, ◌≡◌, refl, ◌∙◌, arith, [], ◌∷◌}
use mathlib.Core.Path.{ap₂}
use linux_page_cache_lab.Scan.{word, memset, memset_inside, scan_whole}
use linux_page_cache_lab.Paging.Strides.{
  strided, pressure_size, benchmark_size, demo_tlb_pressure, demo_strided_benchmark,
}

strided_lem :
    (mem : ℕ → ℕ) (size step k : ℕ)
    → 0 < step
    → step * k ≡ size
    → k < word
    → strided (memset mem 0 1 size) size step ≡ k
strided_lem mem size step k wide whole small =
    scan_whole step k 1 size 0 (memset mem 0 1 size) wide whole (omega arith)
      (λ a lt. memset_inside mem 0 1 size a (omega arith) (omega arith))
    ∙ (omega arith)

-- If k pages make up 2 MiB: the two scans of the first phase add up to 128 * k and 4194304, and those of the benchmark
-- to 134217728, 2097152, 64 * k and 64: each reads every byte, line, page or huge page once.
pub strides_read_all :
    (mem : ℕ → ℕ) (page_size k : ℕ)
    → page_size * k ≡ 2097152
    → (demo_tlb_pressure page_size mem ≡ (128 * k) ∷ 4194304 ∷ [])
      × (demo_strided_benchmark page_size mem ≡ 134217728 ∷ 2097152 ∷ (64 * k) ∷ 64 ∷ [])
unfolding demo_tlb_pressure demo_strided_benchmark
strides_read_all mem page_size k whole = (
  ap₂ ◌∷◌
      (strided_lem mem pressure_size page_size (128 * k) wide (grind arith) (omega (arith, few)))
      (ap₂ ◌∷◌ (strided_lem mem pressure_size 64 4194304 (omega arith) (omega arith) (omega arith))
        refl),
  ap₂ ◌∷◌ (strided_lem mem benchmark_size 1 134217728 (omega arith) (omega arith) (omega arith)) (
      ap₂ ◌∷◌ (strided_lem mem benchmark_size 64 2097152 (omega arith) (omega arith) (omega arith))
        (ap₂ ◌∷◌
          (strided_lem mem benchmark_size page_size (64 * k) wide (grind arith)
            (omega (arith, few)))
          (ap₂ ◌∷◌
            (strided_lem mem benchmark_size 2097152 64 (omega arith) (omega arith) (omega arith))
            refl))),
)
  where
    wide : 0 < page_size
    wide = grind arith

    few : k ≤ 2097152
    few = grind arith
