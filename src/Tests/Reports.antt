-- ===== src/Tests/Reports.antt =====
-- Runs of the report programs at concrete inputs.
use linux_page_cache_lab.Base.{
  ◌≡◌, refl, ℕ, Option, true, false, none, some, List, [], ◌∷◌, map, arith,
}
use linux_page_cache_lab.Base.Outcome.{ok}
use linux_page_cache_lab.DemandPaging.{Host as PagingHost, main as paging_main}
use linux_page_cache_lab.DemandPaging.Sums.{demand_paging_sums}
use linux_page_cache_lab.Report.{Event, Host, File}
use linux_page_cache_lab.Report.Files.{print_proc_file, window}
use Prim.Native.String.{String}
use linux_page_cache_lab.AddressSpace.{DeviceKind, character}
use linux_page_cache_lab.Machine.{Registers}
use linux_page_cache_lab.Exercises.{main}
use linux_page_cache_lab.Exercises.Printed.{
  print_proc_file_lem, window_lem, take, from, upto, ends_window,
}

abbrev paging_host : PagingHost
paging_host = record { page_size = 4096; maps = true; unmaps = true }

demand_paging_sums_example :
    paging_main paging_host
    ≡ ok (record { pages_per_chunk = 2560; total_pages = 25600; read_sum = 0; warm_sum = 140800 })
demand_paging_sums_example = demand_paging_sums paging_host 2560 (omega arith) refl refl

abbrev maps_file : File
maps_file = record {
  lines = "1000-2000 rw-p" ∷ "Rss: 4 kB" ∷ "VmFlags: rd wr" ∷ "2000-3000 r--p" ∷ [];
  unended = false;
}

abbrev host : Host
host = record {
  pid = "7";
  ppid = "1";
  file = λ moment path. some maps_file;
  address = λ moment. some "1000";
  opens_exe = true;
  minor = λ moment. moment;
  major = λ moment. 0;
  child_pid = some "8";
  exit_status = some 42;
}

abbrev devices : String → Option (DeviceKind × ℕ)
devices path = some (character, 259)

abbrev registers : Registers
registers = record { eax = 1; ebx = 2; ecx = 3; edx = 4 }

abbrev poor_host : Host
poor_host = record host { address = λ moment. none }

abbrev lines_in : Option File → List String
lines_in none = []
lines_in (some f) = f.lines

print_proc_file_lem_example :
    print_proc_file (some maps_file) "/proc/self/maps" 2
    ≡ Event.opens "/proc/self/maps"
      ∷ Event.line "1000-2000 rw-p"
      ∷ Event.line "Rss: 4 kB"
      ∷ Event.says "  ... (truncated"
      ∷ Event.closes "/proc/self/maps"
      ∷ []
unfolding take
print_proc_file_lem_example = print_proc_file_lem maps_file "/proc/self/maps" 2

window_lem_example :
    window "1000" maps_file.lines false 18
    ≡ map Event.line ("1000-2000 rw-p" ∷ "Rss: 4 kB" ∷ "VmFlags: rd wr" ∷ [])
unfolding take from upto ends_window
window_lem_example = window_lem "1000" maps_file.lines 18
