-- ===== src/Reports/PhysicalMemory.antt =====
-- labs/lab_04_phys_mem_io.c on x86-64: the maps of memory and ports, the segment registers and the zones.
use Prim.Native.String.{String}
use linux_page_cache_lab.Base.{ℕ, List, [], ◌∷◌, ◌++◌}
use linux_page_cache_lab.Report.{Event, says, shows, Host}
use linux_page_cache_lab.Report.Files.{
  reading, first_lines, all_lines, if_opened, lines_with, starts_with_any,
}

abbrev pub demo_iomem : Host → List Event
demo_iomem host =
    reading (host.file 0 "/proc/iomem") "/proc/iomem" (says "need root to read /proc/iomem" ∷ [])
      (λ f. first_lines f.lines 30)
    ++ if_opened (host.file 0 "/proc/iomem") (says "OBSERVE: 'System RAM'" ∷ [])

abbrev pub demo_ioports : Host → List Event
demo_ioports host =
    reading (host.file 0 "/proc/ioports") "/proc/ioports" (says "need root" ∷ [])
      (λ f. first_lines f.lines 15)
    ++ if_opened (host.file 0 "/proc/ioports") (says "OBSERVE: Legacy x86" ∷ [])

pub record Segments : Type 0 where
  pub cs : ℕ
  pub ds : ℕ
  pub ss : ℕ
  pub fs : ℕ
  pub gs : ℕ

abbrev pub demo_segments : Segments → List Event
demo_segments s =
    shows "CS" s.cs ∷ shows "DS" s.ds ∷ shows "SS" s.ss ∷ shows "FS" s.fs ∷ shows "GS" s.gs ∷ []

abbrev pub zone_keys : List String
zone_keys =
    "MemTotal" ∷ "MemAvailable" ∷ "HugePages" ∷ "Huge" ∷ "DirectMap" ∷ "NFS" ∷ "Committed" ∷ []

abbrev pub demo_meminfo_zones : Host → List Event
demo_meminfo_zones host =
    reading (host.file 0 "/proc/buddyinfo") "/proc/buddyinfo" []
      (λ f. says "/proc/buddyinfo" ∷ all_lines f.lines)
    ++ lines_with host 0 "/proc/meminfo" (starts_with_any zone_keys) []

unfoldable pub main : Segments → Host → List Event
main s host = demo_iomem host ++ (demo_ioports host ++ (demo_segments s ++ demo_meminfo_zones host))
