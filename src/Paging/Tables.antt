-- ===== src/Paging/Tables.antt =====
-- labs/lab_11_tlb_hugepages.c and labs/lab_13_user_page_tables.c; the scans of lab 11 stand in Strides. The times are left out.
use Prim.Native.String.{String}
use linux_page_cache_lab.Base.{
  ℕ, ◌/◌, Bool, true, false, Option, none, some, List, [], ◌∷◌, ◌++◌, length,
}
use linux_page_cache_lab.Report.{
  Run, goes, dies, Event, maps, unmaps, says, shows, forks, File, Host,
}
use linux_page_cache_lab.Report.Files.{
  reading, first_lines, all_lines, contains_any, lines_with, difference,
}

-- A benchmark over a mapping: it returns if `mmap` fails.
abbrev pub over_mapping : (mapped : Bool) (size : ℕ) → List Event
over_mapping false size = says "mmap" ∷ []
over_mapping true size = maps size ∷ unmaps size ∷ []

abbrev pub huge_names : List String
huge_names = "HugePages" ∷ "Hugepagesize" ∷ []

abbrev pub huge_page : (mapped : Bool) → List Event
huge_page false = says "MAP_HUGETLB failed" ∷ []
huge_page true = maps 2097152 ∷ says "Successfully allocated 2MiB huge page" ∷ unmaps 2097152 ∷ []

abbrev pub lines_shown : Host → List Event
lines_shown host = lines_with host 0 "/proc/meminfo" (contains_any huge_names) []

-- The function returns if the file cannot be opened.
abbrev pub demo_hugepages : Host → (mapped : Bool) → List Event
demo_hugepages host mapped = elim (host.file 0 "/proc/meminfo") [
  | none ↦ []
  | some f ↦ lines_shown host ++ huge_page mapped
]

abbrev pub demo_boot_overview : Host → List Event
demo_boot_overview host =
    reading (host.file 0 "dmesg | head -20") "dmesg | head -20" (says "(need root for dmesg)" ∷ [])
      (λ f. all_lines f.lines)

-- `main` of lab 11: 256 MiB, 2 MiB and 128 MiB.
unfoldable pub huge_main : Host → (first huge second : Bool) → List Event
huge_main host first huge second =
    over_mapping first 268435456
    ++ (demo_hugepages host huge ++ (demo_boot_overview host ++ over_mapping second 134217728))

-- The number of lines of /proc/self/maps, or 0.
abbrev pub vma_count : Option File → ℕ
vma_count none = 0
vma_count (some f) = length f.lines

abbrev pub counted : (o : Option File) → (label : String) → List Event
counted o label = reading o "/proc/self/maps" [] (λ f. []) ++ (shows label (vma_count o) ∷ [])

-- 32 MiB.
abbrev pub sz : ℕ
sz = 33554432

-- What the first child prints: `m0` is the count before the fork.
abbrev pub first_child : Host → List Event
first_child host =
    difference "faults after fork" (host.minor 1) (host.minor 0)
    ++ difference "faults after writing" (host.minor 3) (host.minor 2)

abbrev pub second_child : Host → List Event
second_child host = counted (host.file 1 "/proc/self/maps") "Child VMA count"

-- `main` of lab 13; the byte that the parent prints is the one it has written before the fork, whether or
-- not `mmap` has succeeded.
unfoldable pub tables_main : Host → (mapped : Bool) → Run
tables_main host false = dies []
tables_main host true = goes (
    let byte : ℕ = 170 in
    (maps sz
      ∷ ((shows "MiB" (sz / 1048576) ∷ forks ∷ shows "mem[0]" byte ∷ []) ++ (unmaps sz ∷ [])))
    ++ (reading (host.file 0 "/sys/devices/system/cpu/vulnerabilities/meltdown")
          "/sys/devices/system/cpu/vulnerabilities/meltdown" (says "meltdown: not available" ∷ [])
          (λ f. first_lines f.lines 1)
        ++ (counted (host.file 0 "/proc/self/maps") "Parent VMA count" ++ (forks ∷ []))))
