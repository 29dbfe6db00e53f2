-- ===== src/Reports/Memory.antt =====
-- labs/lab_28_page_replace.c: the mapping that it scans (the scans stand in Locality), and its reports.
use linux_page_cache_lab.Base.{Bool, true, false, ℕ, List, [], ◌∷◌, ◌++◌}
use Prim.Native.String.{String}
use linux_page_cache_lab.Report.{Run, goes, dies, maps, unmaps, says, Host}
use linux_page_cache_lab.Report.Files.{starts_with_any, contains_any, first_value, lines_with}

-- 64 MiB.
abbrev pub region : ℕ
region = 67108864

abbrev pub lru_names : List String
lru_names = "Active" ∷ "Inactive" ∷ "Unevictable" ∷ []

abbrev pub swap_keys : List String
swap_keys = "SwapTotal" ∷ "SwapFree" ∷ "SwapCached" ∷ []

abbrev pub fault_keys : List String
fault_keys = "pgfault" ∷ "pgmajfault" ∷ "pgpgout" ∷ "pswpout" ∷ []

-- `main`, which writes to the mapping whether or not `mmap` has succeeded.
unfoldable pub main : Host → (mapped : Bool) → Run
main host false = dies []
main host true = goes (
    maps region
    ∷ unmaps region
    ∷ (lines_with host 0 "/proc/meminfo" (contains_any lru_names) []
        ++ (first_value host 0 "/sys/kernel/mm/lru_gen/enabled" "MGLRU enabled"
              (says "MGLRU: not available" ∷ [])
            ++ (lines_with host 1 "/proc/meminfo" (starts_with_any swap_keys) []
                ++ lines_with host 1 "/proc/vmstat" (starts_with_any fault_keys) []))))
