-- ===== src/Exercises/Sums.antt =====
-- The page scans of exercises 3 and 6 of labs/process_memory_exercises.c.
use linux_page_cache_lab.Base.{ℕ, ◌+◌, ◌-◌, ◌*◌, ◌%◌, ◌^◌, ◌≤◌, ◌≡◌, ◌∙◌, ap, arith}
use linux_page_cache_lab.Scan.{word, scan, scan_const, scan_end, memset, memset_inside}
use linux_page_cache_lab.Exercises.Memory.{page_scan}

-- After a `memset` of `k` pages with `v`, a scan of the pages adds up to `v % 256` for each page.
pub page_scan-memset :
    (mem : ℕ → ℕ) (v k size : ℕ)
    → size ≡ 4096 * k
    → size ≤ 2 ^ 48
    → page_scan (memset mem 0 v size) size ≡ v % 256 * k
page_scan-memset mem v k size e small =
    ap (λ f. scan 4096 (memset mem 0 v size) f 0 size 0) {y = k + (size + 1 - k)} (omega (arith, e))
    ∙ scan_const 4096 (memset mem 0 v size) k (v % 256) (size + 1 - k) 0 size 0 (omega arith)
        (omega arith) (omega (arith, e))
        (λ j lt. memset_inside mem 0 v size (0 + 4096 * j) (omega arith) (omega (arith, e)))
    ∙ scan_end 4096 (memset mem 0 v size) (size + 1 - k) (0 + 4096 * k) size
        ((0 + v % 256 * k) % word) (omega (arith, e))
    ∙ fits
  where
    fits : (0 + v % 256 * k) % word ≡ v % 256 * k
    fits = grind arith
