-- ===== src/Paging/Faults.antt =====
-- labs/lab_09_paging_deep.c: page faults counted around the writes to a mapping. `rss` stands for the `sscanf` of the number in a line.
use Prim.Native.String.{String}
use text.Mathlib.Text.{starts_with}
use linux_page_cache_lab.Base.{
  ℕ, ◌*◌, ◌/◌, Bool, true, false, ◌||◌, Option, none, some, List, [], ◌∷◌, ◌++◌, if◌then◌else◌,
}
use linux_page_cache_lab.Report.{
  Run, goes, dies, ◌▸◌, Event, maps, unmaps, line, says, shows, File, Host, contains,
}
use linux_page_cache_lab.Report.Files.{reading, difference}

abbrev pub mib : ℕ
mib = 1048576

-- The calls of `get_faults` alternate before and after what is counted.
abbrev pub minor_between : Host → (label : String) (before after : ℕ) → List Event
minor_between host label before after = difference label (host.minor after) (host.minor before)

abbrev pub counted_faults : Host → (page_size : ℕ) → List Event
counted_faults host page_size =
    minor_between host "After mmap(16MiB)" 0 1
    ++ (minor_between host "After memset(16MiB)" 2 3
        ++ (shows "pages touched" (16 * mib / page_size)
            ∷ minor_between host "After 2nd memset" 4 5))

-- The `memset` is made whether or not `mmap` has succeeded; so is the one of `demo_smaps`.
abbrev pub demo_fault_counting : Host → (page_size : ℕ) → (mapped : Bool) → Run
demo_fault_counting host page_size false = dies (minor_between host "After mmap(16MiB)" 0 1)
demo_fault_counting host page_size true =
    goes (maps (16 * mib) ∷ (counted_faults host page_size ++ (unmaps (16 * mib) ∷ [])))

-- From the first line with the target to the first line from there on that starts with `VmFlags`.
unfoldable pub smaps_lines : (target : String) → List String → (found : Bool) → List Event
smaps_lines target [] found = []
smaps_lines target (l ∷ ls) found =
    let inside = smaps_lines target ls true in
    let outside = smaps_lines target ls false in
    if found || contains l target
    then line l ∷ (if starts_with l "VmFlags" then [] else inside)
    else outside

abbrev pub demo_smaps : Host → (target : String) → (mapped : Bool) → Run
demo_smaps host target false = dies []
demo_smaps host target true = goes (
    maps (4 * mib)
    ∷ (reading (host.file 0 "/proc/self/smaps") "/proc/self/smaps" []
          (λ f. smaps_lines target f.lines false)
        ++ (unmaps (4 * mib) ∷ [])))

-- The first line with the resident set, or 0.
abbrev pub find_rss : (rss : String → ℕ) → List String → ℕ
find_rss rss [] = 0
find_rss rss (l ∷ ls) = let rest = find_rss rss ls in if starts_with l "VmRSS:" then rss l else rest

abbrev pub rss_of : (rss : String → ℕ) → Option File → ℕ
rss_of rss none = 0
rss_of rss (some f) = find_rss rss f.lines

abbrev pub reading_rss : Option File → List Event
reading_rss o = reading o "/proc/self/status" [] (λ f. [])

-- `madvise` may fail, and the phase goes on.
abbrev pub around_madvise : Host → (rss : String → ℕ) → (advised : Bool) → List Event
around_madvise host rss advised =
    let before = rss_of rss (host.file 0 "/proc/self/status") in
    let after = rss_of rss (host.file 1 "/proc/self/status") in
    reading_rss (host.file 0 "/proc/self/status")
    ++ (shows "RSS before MADV_DONTNEED" before
        ∷ ((if advised then [] else says "madvise" ∷ [])
            ++ (reading_rss (host.file 1 "/proc/self/status")
                ++ (shows "RSS after MADV_DONTNEED" after
                    ∷ (difference "dropped" before after
                        ++ (minor_between host "minor_faults" 6 7
                            ++ difference "major_faults" (host.major 7) (host.major 6)))))))

abbrev pub demo_madvise_dontneed : Host → (rss : String → ℕ) → (mapped advised : Bool) → List Event
demo_madvise_dontneed host rss false advised = says "mmap" ∷ []
demo_madvise_dontneed host rss true advised =
    maps (8 * mib) ∷ (around_madvise host rss advised ++ (unmaps (8 * mib) ∷ []))

unfoldable pub main :
    Host
    → (rss : String → ℕ) → (page_size : ℕ) → (target : String)
    → (first second mapped advised : Bool) → Run
main host rss page_size target first second mapped advised =
    demo_fault_counting host page_size first
    ▸ demo_smaps host target second
    ▸ goes (demo_madvise_dontneed host rss mapped advised)
