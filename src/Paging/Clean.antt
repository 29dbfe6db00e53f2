-- ===== src/Paging/Clean.antt =====
-- The balance of the runs of the labs on paging.
use Prim.Native.String.{String}
use text.Mathlib.Text.{starts_with}
use linux_page_cache_lab.Base.{
  ℕ, zero, suc, ◌+◌, ◌*◌, ◌%◌, ◌≡◌, arith, Bool, true, false, ◌&&◌, ◌||◌, List, Option, none, some,
  [], ◌∷◌, ◌++◌,
}
use linux_page_cache_lab.Report.{Host, File, Event, maps, unmaps, shows, forks, contains}
use linux_page_cache_lab.Report.Balance.{
  IsClean, goes-IsClean, then-IsClean, Resource, handles, mappings, bytes, gain, loss, tally,
  tally-append, IsBalanced, append-IsBalanced, none-IsBalanced, reading-IsBalanced, say-IsBalanced,
  show-IsBalanced, if-IsBalanced, plain-IsBalanced, line-IsPlain, forks-IsPlain, map-IsBalanced,
}
use linux_page_cache_lab.Report.Balance.Files.{find_line-IsBalanced, maps_if-IsBalanced}
use linux_page_cache_lab.Reports.Clean.{balance, closed-IsBalanced}
use linux_page_cache_lab.Paging.Translate.{Pagemap, pagemap_events}
use linux_page_cache_lab.Paging.Intro.{
  demo_page_size, huge_size, region_lines, aligned, touched, huge_page, la57_line,
}
use linux_page_cache_lab.Paging.Intro
use linux_page_cache_lab.Paging.Areas.{
  count_vmas, maps_file, counting, vmas_shown, counted, grow, shrink, demo_vma_growth,
  demo_cow_after_fork, region_size, around_mmap, demo_maps_before_after_mmap,
}
use linux_page_cache_lab.Paging.Areas
use linux_page_cache_lab.Paging.Faults.{
  smaps_lines, mib, minor_between, counted_faults, reading_rss, around_madvise,
  demo_madvise_dontneed,
}
use linux_page_cache_lab.Paging.Faults

pagemap-IsBalanced : (map : Pagemap) → IsBalanced (pagemap_events map)
pagemap-IsBalanced map =
    if-IsBalanced map.opened (closed-IsBalanced _ none-IsBalanced) none-IsBalanced

regions-IsBalanced :
    (map : Pagemap) (page_size : ℕ) (regions : List (String × ℕ))
    → IsBalanced (region_lines map page_size regions)
regions-IsBalanced map page_size [] = none-IsBalanced
regions-IsBalanced map page_size ((name, addr) ∷ regions) =
    append-IsBalanced (pagemap-IsBalanced map) (
      say-IsBalanced _ (
        show-IsBalanced _ _
          (show-IsBalanced _ _ (say-IsBalanced _ (regions-IsBalanced map page_size regions)))))

huge-IsBalanced : (o : Option ℕ) → IsBalanced (huge_page o)
huge-IsBalanced none = search balance
huge-IsBalanced (some huge) =
    map-IsBalanced {es = shows "Address mod 2MiB" (huge % huge_size) ∷ aligned huge huge_size}
      huge_size (search balance depth 8)

la57-IsBalanced : (ls : List String) → IsBalanced (la57_line ls)
la57-IsBalanced [] = search balance
la57-IsBalanced (l ∷ ls) =
    if-IsBalanced (starts_with l "flags" && contains l "la57") (search balance) (la57-IsBalanced ls)

two_maps-IsBalanced :
    (n m : ℕ) {es : List Event}
    → IsBalanced es
    → IsBalanced (maps n ∷ maps m ∷ (es ++ (unmaps n ∷ unmaps m ∷ [])))
unfolding tally gain loss
two_maps-IsBalanced n m {es} p = record {
  each = λ r.
      elim r
        as (λ k.
          tally (gain k) (maps n ∷ maps m ∷ (es ++ (unmaps n ∷ unmaps m ∷ [])))
          ≡ tally (loss k) (maps n ∷ maps m ∷ (es ++ (unmaps n ∷ unmaps m ∷ [])))) [
            | handles path ↦ omega (
              arith,
              tally-append (gain (handles path)) es (unmaps n ∷ unmaps m ∷ []),
              tally-append (loss (handles path)) es (unmaps n ∷ unmaps m ∷ []),
              p.each (handles path),
            )
            | mappings size ↦ omega (
              arith,
              tally-append (gain (mappings size)) es (unmaps n ∷ unmaps m ∷ []),
              tally-append (loss (mappings size)) es (unmaps n ∷ unmaps m ∷ []),
              p.each (mappings size),
            )
            | bytes ↦ omega (
              arith,
              tally-append (gain bytes) es (unmaps n ∷ unmaps m ∷ []),
              tally-append (loss bytes) es (unmaps n ∷ unmaps m ∷ []),
              p.each bytes,
            )
          ];
}

pagemap_lines-IsBalanced :
    (map : Pagemap) (page_size stack_addr heap_addr mmap_addr code_addr : ℕ)
    → IsBalanced (
        maps 4
        ∷ maps 4096
        ∷ (region_lines map page_size (
              ("stack", stack_addr)
              ∷ ("heap", heap_addr)
              ∷ ("mmap", mmap_addr)
              ∷ ("code", code_addr)
              ∷ [])
            ++ (unmaps 4 ∷ unmaps 4096 ∷ [])))
pagemap_lines-IsBalanced map page_size stack_addr heap_addr mmap_addr code_addr =
    two_maps-IsBalanced 4 4096 (
      regions-IsBalanced map page_size (
        ("stack", stack_addr)
        ∷ ("heap", heap_addr)
        ∷ ("mmap", mmap_addr)
        ∷ ("code", code_addr)
        ∷ []))

-- If the allocations of the two last phases succeed.
pub intro-IsClean :
    (map : Pagemap) (page_size stack_addr heap_addr mmap_addr code_addr p1 p2 : ℕ) (huge : Option ℕ)
    (host : Host)
    → IsClean (
        Intro.main map page_size stack_addr
          (some heap_addr)
          (some mmap_addr)
          code_addr
          (some p1)
          (some p2)
          huge
          host)
unfolding Intro.main
intro-IsClean map page_size stack_addr heap_addr mmap_addr code_addr p1 p2 huge host =
    then-IsClean (goes-IsClean {es = demo_page_size page_size} (search balance)) (
      then-IsClean
        (goes-IsClean
          (pagemap_lines-IsBalanced map page_size stack_addr heap_addr mmap_addr code_addr))
        (goes-IsClean (
          append-IsBalanced
            (map-IsBalanced page_size (
              map-IsBalanced {es = touched page_size p1 p2 huge} page_size
                (search (balance, huge-IsBalanced) depth 12)))
            (reading-IsBalanced (host.file 0 "/proc/cpuinfo") "/proc/cpuinfo" none-IsBalanced
              (λ f. la57-IsBalanced f.lines)))))

counting-IsBalanced : (host : Host) (moment : ℕ) → IsBalanced (counting host moment)
counting-IsBalanced host moment =
    reading-IsBalanced (maps_file host moment) _ none-IsBalanced (λ f. none-IsBalanced)

vmas-IsBalanced : (label : String) (n : ℕ) → IsBalanced (vmas_shown label n)
vmas-IsBalanced label zero = search balance
vmas-IsBalanced label (suc n) = search balance

counted-IsBalanced :
    (host : Host) (moment : ℕ) (label : String) → IsBalanced (counted host moment label)
counted-IsBalanced host moment label =
    append-IsBalanced (counting-IsBalanced host moment) (vmas-IsBalanced label _)

split-IsBalanced :
    (host : Host) (page_size : ℕ) (region : Option ℕ)
    → IsBalanced (Areas.demo_mprotect_split host page_size region)
split-IsBalanced host page_size region =
    maps_if-IsBalanced region (page_size * 4)
      (search (balance, counting-IsBalanced, vmas-IsBalanced) depth 12)

around-IsBalanced : (host : Host) (target : String) → IsBalanced (around_mmap host target)
around-IsBalanced host target =
    search (balance, counting-IsBalanced, vmas-IsBalanced, find_line-IsBalanced) depth 16

before_after-IsBalanced :
    (host : Host) (o : Option String) → IsBalanced (demo_maps_before_after_mmap host o)
before_after-IsBalanced host none = search (balance, counted-IsBalanced)
before_after-IsBalanced host (some target) = append-IsBalanced (counted-IsBalanced host 14 _) (
    append-IsBalanced (map-IsBalanced region_size (around-IsBalanced host target)) (search balance))

smaps-IsBalanced :
    (target : String) (ls : List String) (found : Bool) → IsBalanced (smaps_lines target ls found)
unfolding smaps_lines
smaps-IsBalanced target [] found = none-IsBalanced
smaps-IsBalanced target (l ∷ ls) found =
    if-IsBalanced (found || contains l target)
      (plain-IsBalanced (line-IsPlain l)
        (if-IsBalanced (starts_with l "VmFlags") none-IsBalanced (smaps-IsBalanced target ls true)))
      (smaps-IsBalanced target ls false)

rss-IsBalanced : (o : Option File) → IsBalanced (reading_rss o)
rss-IsBalanced o = reading-IsBalanced o _ none-IsBalanced (λ f. none-IsBalanced)

madvise-IsBalanced :
    (host : Host) (rss : String → ℕ) (mapped advised : Bool)
    → IsBalanced (demo_madvise_dontneed host rss mapped advised)
madvise-IsBalanced host rss false advised = search balance
madvise-IsBalanced host rss true advised =
    map-IsBalanced (8 * mib) (search (balance, rss-IsBalanced) depth 16)

pub faults-IsClean :
    (host : Host) (rss : String → ℕ) (page_size : ℕ) (target : String) (mapped advised : Bool)
    → IsClean (Faults.main host rss page_size target true true mapped advised)
unfolding Faults.main
faults-IsClean host rss page_size target mapped advised =
    then-IsClean
      (goes-IsClean
        (map-IsBalanced {es = counted_faults host page_size} (16 * mib) (search balance depth 12)))
      (then-IsClean
        (goes-IsClean (
          map-IsBalanced (4 * mib) (
            reading-IsBalanced (host.file 0 "/proc/self/smaps") "/proc/self/smaps" none-IsBalanced
              (λ f. smaps-IsBalanced target f.lines false))))
        (goes-IsClean (madvise-IsBalanced host rss mapped advised)))

grow-shrink :
    (host : Host) (mmap : ℕ → Option ℕ) (left i : ℕ) (r : Resource)
    → tally (gain r) (grow host mmap left i) + tally (gain r) (shrink mmap left i)
      ≡ tally (loss r) (grow host mmap left i) + tally (loss r) (shrink mmap left i)
unfolding tally
grow-shrink host mmap zero i r = omega arith
grow-shrink host mmap (suc left) i r = omega (
  arith,
  tally-append,
  grow-shrink host mmap left (i + 1) r,
  (counted-IsBalanced host (i + 1) "After mmap").each r,
  (maps_if-IsBalanced (mmap i) 4096 none-IsBalanced).each r,
)

growth-IsBalanced : (host : Host) (mmap : ℕ → Option ℕ) → IsBalanced (demo_vma_growth host mmap)
growth-IsBalanced host mmap = record {
  each = λ r. omega (
    arith,
    tally-append,
    grow-shrink host mmap 10 0 r,
    (counted-IsBalanced host 0 "Base VMAs").each r,
    (counted-IsBalanced host 11 "After munmap all").each r,
  );
}

cow-IsClean : (page_size : ℕ) → IsClean (demo_cow_after_fork page_size true)
cow-IsClean page_size = goes-IsClean (
    map-IsBalanced {es = shows "Parent" 100 ∷ forks ∷ shows "Parent after child exit" 100 ∷ []}
      page_size (show-IsBalanced _ _ (plain-IsBalanced forks-IsPlain (search balance))))

pub areas-IsClean :
    (host : Host) (mmap : ℕ → Option ℕ) (page_size : ℕ) (region : Option ℕ) (target : Option String)
    → IsClean (Areas.main host mmap page_size region true target)
unfolding Areas.main
areas-IsClean host mmap page_size region target =
    then-IsClean
      (goes-IsClean
        (append-IsBalanced (growth-IsBalanced host mmap) (split-IsBalanced host page_size region)))
      (then-IsClean (cow-IsClean page_size) (goes-IsClean (before_after-IsBalanced host target)))
