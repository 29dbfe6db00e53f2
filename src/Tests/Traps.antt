-- ===== src/Tests/Traps.antt =====
-- Instances of the theorems on the trap handlers.
use Prim.Native.String.{String}
use linux_page_cache_lab.Base.{ℕ, ◌+◌, ◌≡◌, refl, Option, none, some, true}
use linux_page_cache_lab.Report.Balance.{handles, mappings, bytes, gain, loss, tally}
use linux_page_cache_lab.Traps.{Fault, State, returns, undefined}
use linux_page_cache_lab.Traps.Segv.{
  Site, null_read, guard_memset, guard_read, protect_memset, protect_write, file_read, beyond_read,
  Kernel, main,
}
use linux_page_cache_lab.Traps.Caught.{lab_05_counts}
use linux_page_cache_lab.Traps.Stale.{lab_05_stale_jump}

abbrev fault : (sig si_code : ℕ) → Fault
fault sig si_code = record { sig = sig; si_code = si_code; si_addr = 0; rip = 4096; rsp = 8192 }

-- Each of the four phases meets its fault.
abbrev expected : Site → Option Fault
expected null_read = some (fault 11 1)
expected guard_memset = none
expected guard_read = some (fault 11 2)
expected protect_memset = none
expected protect_write = some (fault 11 2)
expected file_read = none
expected beyond_read = some (fault 7 3)

abbrev kernel : Kernel
kernel = record {
  page_size = 4096;
  mmap = λ moment. some 65536;
  mprotect = λ moment. true;
  mkstemp = true;
  access = expected;
  file_byte = 170;
}

lab_05_counts_example :
    (s : State) × (main kernel ≡ returns s)
    × (s.fault_count ≡ 1 + 1 + 1 + 1)
    × ((path : String)
        → tally (gain (handles path)) s.events ≡ tally (loss (handles path)) s.events)
    × ((size : ℕ)
        → tally (gain (mappings size)) s.events ≡ tally (loss (mappings size)) s.events + 0)
    × (tally (gain bytes) s.events ≡ tally (loss bytes) s.events + 0)
lab_05_counts_example = lab_05_counts kernel 65536 refl refl refl refl

-- The third `mmap` of the text fails.
abbrev faulty : Site → Option Fault
faulty protect_memset = some (fault 11 1)
faulty site = none

abbrev failing : Kernel
failing = record kernel { mmap = λ moment. none; access = faulty }

lab_05_stale_jump_example : (s : State) × (main failing ≡ undefined s)
lab_05_stale_jump_example = lab_05_stale_jump failing (fault 11 1) refl refl
