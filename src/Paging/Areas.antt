-- ===== src/Paging/Areas.antt =====
-- labs/lab_10_addr_space_paging.c: the areas of the address space, counted around calls of `mmap` and `mprotect`.
-- The moments number the reads of /proc/self/maps. Addresses are not kept.
use Prim.Native.String.{String}
use linux_page_cache_lab.Base.{
  Bool, true, false, ℕ, zero, suc, ◌+◌, ◌*◌, Option, none, some, List, [], ◌∷◌, ◌++◌, ltb, length,
}
use linux_page_cache_lab.Report.{
  Run, goes, dies, ◌▸◌, Event, maps, unmaps, says, shows, forks, File, Host, contains,
}
use linux_page_cache_lab.Report.Files.{
  reading, first_lines, find_line, answer, difference, maps_if, unmaps_if,
}

-- One more than what `count_vmas` returns, so that 0 stands for -1.
abbrev pub count_vmas : Option File → ℕ
count_vmas none = 0
count_vmas (some f) = suc (length f.lines)

abbrev pub maps_file : Host → (moment : ℕ) → Option File
maps_file host moment = host.file moment "/proc/self/maps"

abbrev pub counting : Host → (moment : ℕ) → List Event
counting host moment = reading (maps_file host moment) "/proc/self/maps" [] (λ f. [])

abbrev pub vmas_shown : (label : String) → ℕ → List Event
vmas_shown label zero = says label ∷ says "-1" ∷ []
vmas_shown label (suc n) = shows label n ∷ []

abbrev pub counted : Host → (moment : ℕ) → (label : String) → List Event
counted host moment label =
    counting host moment ++ vmas_shown label (count_vmas (maps_file host moment))

-- The loop maps `left` pages from number `i` on; the other unmaps them in the same order.
abbrev pub grow : Host → (mmap : ℕ → Option ℕ) → (left i : ℕ) → List Event
grow host mmap zero i = []
grow host mmap (suc left) i =
    maps_if (mmap i) 4096 ++ (counted host (i + 1) "After mmap" ++ grow host mmap left (i + 1))

abbrev pub shrink : (mmap : ℕ → Option ℕ) → (left i : ℕ) → List Event
shrink mmap zero i = []
shrink mmap (suc left) i = unmaps_if (mmap i) 4096 ++ shrink mmap left (i + 1)

abbrev pub demo_vma_growth : Host → (mmap : ℕ → Option ℕ) → List Event
demo_vma_growth host mmap =
    counted host 0 "Base VMAs"
    ++ (grow host mmap 10 0 ++ (shrink mmap 10 0 ++ counted host 11 "After munmap all"))

abbrev pub demo_mprotect_split : Host → (page_size : ℕ) → (region : Option ℕ) → List Event
demo_mprotect_split host page_size region =
    maps_if region (page_size * 4)
    ++ ((counting host 12
          ++ (counting host 13
              ++ (vmas_shown "before" (count_vmas (maps_file host 12))
                  ++ vmas_shown "after" (count_vmas (maps_file host 13)))))
        ++ unmaps_if region (page_size * 4))

-- What the child prints of its copy of the page, and what the parent prints, which writes to the page whether or not `mmap`
-- has succeeded.
abbrev pub cow_child : (value : ℕ) → List Event
cow_child value = shows "Child before write" value ∷ shows "Child after write" 999 ∷ []

abbrev pub demo_cow_after_fork : (page_size : ℕ) → (mapped : Bool) → Run
demo_cow_after_fork page_size false = dies []
demo_cow_after_fork page_size true =
    let value : ℕ = 100 in
    goes (
      maps page_size
      ∷ ((shows "Parent" value ∷ forks ∷ shows "Parent after child exit" value ∷ [])
          ++ (unmaps page_size ∷ [])))

-- 4 MiB.
abbrev pub region_size : ℕ
region_size = 4194304

-- `target` is the address in hexadecimal, and the line that has it is printed.
abbrev pub around_mmap : Host → (target : String) → List Event
around_mmap host target =
    let before = count_vmas (maps_file host 14) in
    let alloc = count_vmas (maps_file host 15) in
    let split = count_vmas (maps_file host 17) in
    let merge = count_vmas (maps_file host 18) in
    counting host 15
    ++ (vmas_shown "VMAs after mmap" alloc
        ++ (difference "change" alloc before
            ++ (reading (maps_file host 16) "/proc/self/maps" []
                  (λ f. find_line (λ l. contains l target) f.lines)
                ++ (counting host 17
                    ++ (vmas_shown "VMAs after mprotect" split
                        ++ (difference "from split" split alloc
                            ++ (counting host 18
                                ++ (vmas_shown "VMAs after restore" merge
                                    ++ answer (ltb merge split) "YES" "NO/partial"))))))))

abbrev pub demo_maps_before_after_mmap : Host → (target : Option String) → List Event
demo_maps_before_after_mmap host none = counted host 14 "VMAs before new mmap" ++ (says "mmap" ∷ [])
demo_maps_before_after_mmap host (some target) =
    counted host 14 "VMAs before new mmap"
    ++ ((maps region_size ∷ (around_mmap host target ++ (unmaps region_size ∷ [])))
        ++ reading (host.file 0 "/sys/kernel/mm/transparent_hugepage/enabled")
            "/sys/kernel/mm/transparent_hugepage/enabled" (says "THP: not available" ∷ [])
            (λ f. first_lines f.lines 1))

unfoldable pub main :
    Host
    → (mmap : ℕ → Option ℕ) → (page_size : ℕ) → (region : Option ℕ) → (shared : Bool)
    → (target : Option String) → Run
main host mmap page_size region shared target =
    goes (demo_vma_growth host mmap ++ demo_mprotect_split host page_size region)
    ▸ demo_cow_after_fork page_size shared
    ▸ goes (demo_maps_before_after_mmap host target)
