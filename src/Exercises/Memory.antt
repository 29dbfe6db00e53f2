-- ===== src/Exercises/Memory.antt =====
-- The exercises of labs/process_memory_exercises.c that map memory: 2, 3, 4 and 6.
use Prim.Native.String.{String}
use text.Mathlib.Text.{◌==◌ as str_eq}
use linux_page_cache_lab.Base.{
  ℕ, ◌+◌, ◌-◌, ◌*◌, ◌/◌, Bool, false, not, ◌&&◌, ◌||◌, Option, none, some, List, [], ◌∷◌, ◌++◌,
  if◌then◌else◌,
}
use linux_page_cache_lab.Report.{
  Event, opens, closes, maps, unmaps, says, shows, Run, goes, dies, Host, contains,
}
use linux_page_cache_lab.Report.Files.{
  reading, print_proc_file, print_status_field, select_lines, window,
}
use linux_page_cache_lab.Scan.{scan, memset}

-- `sz` of exercises 2, 3 and 6.
abbrev pub maps_size : ℕ
maps_size = 2 * 1024 * 1024

abbrev pub faults_size : ℕ
faults_size = 32 * 1024 * 1024

abbrev pub huge_size : ℕ
huge_size = 256 * 1024 * 1024

-- Exercise 2.
abbrev pub mm_report : Host → (address : String) → List Event
mm_report host address =
    print_proc_file (host.file 0 "/proc/self/maps") "/proc/self/maps" 25
    ++ reading (host.file 1 "/proc/self/smaps") "/proc/self/smaps" []
        (λ f. window address f.lines false 18)

abbrev pub ex_mm_struct : Host → Run
ex_mm_struct host = elim (host.address 0) [
  | none ↦ goes (says "mmap" ∷ [])
  | some a ↦ goes (maps maps_size ∷ (mm_report host a ++ (unmaps maps_size ∷ [])))
]

-- The loop `for (i = 0; i < sz; i += 4096) sum += ((char*)mem)[i]`, on bytes below 128, with fuel enough.
abbrev pub page_scan : (ℕ → ℕ) → (size : ℕ) → ℕ
page_scan mem size = scan 4096 mem (size + 1) 0 size 0

-- Minor faults between two calls of `get_faults`.
abbrev pub minor_since : Host → ℕ → ℕ
minor_since host moment = host.minor (moment + 1) - host.minor moment

-- Exercise 3, between `mmap` and `munmap`; a fresh mapping reads as zeros.
abbrev pub lifecycle_report : Host → List Event
lifecycle_report host =
    shows "minor faults" (minor_since host 0)
    ∷ shows "major faults" (host.major 1 - host.major 0)
    ∷ (print_status_field host 0 "VmRSS"
        ++ (shows "minor faults" (minor_since host 2)
            ∷ shows "checksum" (page_scan (λ a. 0) faults_size)
            ∷ (print_status_field host 1 "VmRSS"
                ++ (shows "minor faults" (minor_since host 4)
                    ∷ shows "expected" (faults_size / 4096)
                    ∷ (print_status_field host 2 "VmRSS"
                        ++ (shows "minor faults" (minor_since host 6)
                            ∷ (print_status_field host 3 "VmRSS"
                                ++ print_status_field host 4 "VmRSS")))))))

abbrev pub ex_page_fault_lifecycle : Host → Run
ex_page_fault_lifecycle host = elim (host.address 0) [
  | none ↦ goes (says "mmap" ∷ [])
  | some a ↦ goes (maps faults_size ∷ (lifecycle_report host ++ (unmaps faults_size ∷ [])))
]

-- Exercise 4: `MAP_FAILED` in hexadecimal, and the empty text for no file mapping.
abbrev pub address_text : Option String → String
address_text none = "ffffffffffffffff"
address_text (some a) = a

abbrev pub file_text : Option String → String
file_text none = ""
file_text (some a) = a

abbrev pub mapped : Option String → List Event
mapped none = []
mapped (some a) = maps 4096 ∷ []

abbrev pub unmapped : Option String → List Event
unmapped none = []
unmapped (some a) = unmaps 4096 ∷ []

-- The mapping of /proc/self/exe, if that file opens.
abbrev pub file_address : Host → Option String
file_address host = if host.opens_exe then host.address 1 else none

abbrev pub is_mapping_line : (ap fp sp : String) → String → Bool
is_mapping_line ap fp sp l = contains l ap || (not (str_eq fp "") && contains l fp) || contains l sp

-- Up to the write through the third mapping.
abbrev pub mmap_types_start : Host → List Event
mmap_types_start host =
    mapped (host.address 0)
    ++ (if host.opens_exe
        then opens "/proc/self/exe" ∷ (mapped (file_address host) ++ (closes "/proc/self/exe" ∷ []))
        else [])

-- After that write.
abbrev pub mmap_types_rest : Host → List Event
mmap_types_rest host =
    reading (host.file 0 "/proc/self/maps") "/proc/self/maps" [] (λ f.
      select_lines
        (is_mapping_line (address_text (host.address 0)) (file_text (file_address host))
          (address_text (host.address 2)))
        f.lines)
    ++ (unmapped (host.address 0) ++ (unmapped (file_address host) ++ unmapped (host.address 2)))

-- `*(volatile int *)anon_shared = 42` comes before the test for `MAP_FAILED`.
abbrev pub ex_mmap_types : Host → Run
ex_mmap_types host = elim (host.address 2) [
  | none ↦ dies (mmap_types_start host)
  | some a ↦ goes (mmap_types_start host ++ (maps 4096 ∷ mmap_types_rest host))
]

-- Exercise 6.
abbrev pub is_huge_line : String → Bool
is_huge_line l = contains l "Huge" || contains l "huge" || contains l "AnonHuge"

abbrev pub thp_path : String
thp_path = "/sys/kernel/mm/transparent_hugepage/enabled"

abbrev pub huge_start : Host → List Event
huge_start host =
    reading (host.file 0 "/proc/meminfo") "/proc/meminfo" []
      (λ f. select_lines is_huge_line f.lines)
    ++ print_proc_file (host.file 1 thp_path) thp_path 1

-- The two scans; the second follows a `memset` with 2.
unfoldable pub huge_scans : ℕ × ℕ
huge_scans =
    let ones = memset (λ a. 0) 0 1 huge_size in
    (page_scan ones huge_size, page_scan (memset ones 0 2 huge_size) huge_size)

abbrev pub ex_huge_pages : Host → Run
ex_huge_pages host = elim (host.address 0) [
  | none ↦ goes (huge_start host ++ (says "  [mmap failed, skipping benchmark]" ∷ []))
  | some a ↦ goes (
      huge_start host
      ++ (maps huge_size
          ∷ ((shows "s" huge_scans.0 ∷ shows "s" huge_scans.1 ∷ []) ++ (unmaps huge_size ∷ []))))
]
