-- ===== src/Paging/Intro.antt =====
-- The phases of labs/lab_08_paging_intro.c.
use Prim.Native.String.{String}
use text.Mathlib.Text.{starts_with}
use linux_page_cache_lab.Base.{
  ℕ, ◌+◌, ◌-◌, ◌/◌, ◌%◌, ◌&&◌, Option, none, some, List, [], ◌∷◌, ◌++◌, ◌==◌, if◌then◌else◌,
}
use linux_page_cache_lab.Report.{
  Run, goes, dies, ◌▸◌, Event, maps, unmaps, says, shows, Host, contains,
}
use linux_page_cache_lab.Report.Files.{reading, answer, difference}
use linux_page_cache_lab.Paging.Translate.{Pagemap, virt_to_phys, pagemap_events}

abbrev pub demo_page_size : (page_size : ℕ) → List Event
demo_page_size page_size = shows "System page size" page_size ∷ shows "KiB" (page_size / 1024) ∷ []

-- `regions`: the names and the addresses.
abbrev pub region_lines : Pagemap → (page_size : ℕ) → List (String × ℕ) → List Event
region_lines map page_size [] = []
region_lines map page_size ((name, addr) ∷ regions) =
    pagemap_events map
    ++ (says name
        ∷ shows "VA" addr
        ∷ shows "PA" (virt_to_phys map page_size addr)
        ∷ says (if virt_to_phys map page_size addr == 0 then "(need sudo or CAP_SYS_ADMIN)" else "")
        ∷ region_lines map page_size regions)

-- The heap block has 4 bytes. Neither the result of `malloc` nor that of `mmap` is looked at before it is written through.
abbrev pub demo_pagemap :
    Pagemap → (page_size stack_addr : ℕ) → (heap mapping : Option ℕ) → (code_addr : ℕ) → Run
demo_pagemap map page_size stack_addr none mapping code_addr = dies []
demo_pagemap map page_size stack_addr (some heap_addr) none code_addr = dies (maps 4 ∷ [])
demo_pagemap map page_size stack_addr (some heap_addr) (some mmap_addr) code_addr = goes (
    maps 4
    ∷ maps 4096
    ∷ (region_lines map page_size (
          ("stack", stack_addr)
          ∷ ("heap", heap_addr)
          ∷ ("mmap", mmap_addr)
          ∷ ("code", code_addr)
          ∷ [])
        ++ (unmaps 4 ∷ unmaps 4096 ∷ [])))

abbrev pub aligned : (address size : ℕ) → List Event
aligned address size = shows "address" address ∷ answer (address % size == 0) "YES" "NO"

-- 2 MiB.
abbrev pub huge_size : ℕ
huge_size = 2097152

abbrev pub huge_page : Option ℕ → List Event
huge_page none = says "MAP_HUGETLB failed" ∷ []
huge_page (some huge) =
    maps huge_size
    ∷ ((shows "Address mod 2MiB" (huge % huge_size) ∷ aligned huge huge_size)
        ++ (unmaps huge_size ∷ []))

abbrev pub la57_line : List String → List Event
la57_line [] = says "not in /proc/cpuinfo flags" ∷ []
la57_line (l ∷ ls) =
    let rest = la57_line ls in
    if starts_with l "flags" && contains l "la57" then says "LA57: YES" ∷ [] else rest

abbrev pub touched : (page_size p1 p2 : ℕ) → Option ℕ → List Event
touched page_size p1 p2 huge =
    aligned p1 page_size
    ++ (aligned p2 page_size
        ++ (difference "Distance" p2 p1
            ++ (shows "pages" ((p2 - p1 + (p1 - p2)) / page_size) ∷ huge_page huge)))

-- If only one of the two mappings fails, the function returns with the other one in place.
abbrev pub demo_page_alignment : (page_size : ℕ) (first second huge : Option ℕ) → Host → List Event
demo_page_alignment page_size none none huge host = says "mmap" ∷ []
demo_page_alignment page_size none (some p2) huge host = maps page_size ∷ says "mmap" ∷ []
demo_page_alignment page_size (some p1) none huge host = maps page_size ∷ says "mmap" ∷ []
demo_page_alignment page_size (some p1) (some p2) huge host =
    (maps page_size
      ∷ ((maps page_size ∷ (touched page_size p1 p2 huge ++ (unmaps page_size ∷ [])))
          ++ (unmaps page_size ∷ [])))
    ++ reading (host.file 0 "/proc/cpuinfo") "/proc/cpuinfo" [] (λ f. la57_line f.lines)

unfoldable pub main :
    Pagemap
    → (page_size stack_addr : ℕ) (heap mapping : Option ℕ) (code_addr : ℕ)
      (first second huge : Option ℕ)
    → Host
    → Run
main map page_size stack_addr heap mapping code_addr first second huge host =
    goes (demo_page_size page_size)
    ▸ demo_pagemap map page_size stack_addr heap mapping code_addr
    ▸ goes (demo_page_alignment page_size first second huge host)
