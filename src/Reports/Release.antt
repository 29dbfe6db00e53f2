-- ===== src/Reports/Release.antt =====
-- All runs of the labs that report on the system, and what they give back.
use Prim.Native.String.{String}
use linux_page_cache_lab.Base.{ℕ, ◌≡◌, Bool, true, List, Option, some}
use linux_page_cache_lab.Report.{Host, File, Run, goes}
use linux_page_cache_lab.Machine.{Registers}
use linux_page_cache_lab.Machine
use linux_page_cache_lab.AddressSpace.{DeviceKind}
use linux_page_cache_lab.AddressSpace
use linux_page_cache_lab.Reports.KernelMemory
use linux_page_cache_lab.Reports.PhysicalMemory.{Segments}
use linux_page_cache_lab.Reports.PhysicalMemory
use linux_page_cache_lab.Reports.Delivery
use linux_page_cache_lab.Reports.Recovery
use linux_page_cache_lab.Reports.Boot
use linux_page_cache_lab.Reports.Scheduler
use linux_page_cache_lab.Reports.Memory
use linux_page_cache_lab.Reports.Filesystem.{Stat}
use linux_page_cache_lab.Reports.Filesystem
use linux_page_cache_lab.Reports.Machines
use linux_page_cache_lab.Reports.Cloud
use linux_page_cache_lab.Reports.Clean
use linux_page_cache_lab.Reports.FilesClean
use linux_page_cache_lab.Reports.CloudClean
use linux_page_cache_lab.Paging.Translate.{Pagemap}
use linux_page_cache_lab.Paging.Intro
use linux_page_cache_lab.Paging.Areas
use linux_page_cache_lab.Paging.Faults
use linux_page_cache_lab.Paging.Tables
use linux_page_cache_lab.Paging.Clean as PagingClean
use linux_page_cache_lab.Paging.TablesClean
use linux_page_cache_lab.Processes.Ancestors.{demo_pid1_info, demo_systemd_units}
use linux_page_cache_lab.Processes.Ancestors

-- A lab with what the system answers to it.
pub data LabRun : Type 0 where
  lab_01 : (shared_global : ℕ) → Host → (String → Option (DeviceKind × ℕ)) → LabRun
  lab_02 :
      (ℕ → Registers)
      → (List ℕ → String)
      → (String → String)
      → (configured online : ℕ) → (ℕ → Host)
      → LabRun
  lab_04 : Segments → Host → LabRun
  lab_07 : Host → LabRun
  lab_08 :
      Pagemap
      → (page_size stack_addr : ℕ) (heap mapping : Option ℕ) (code_addr : ℕ) (p1 p2 huge : Option ℕ)
      → Host
      → LabRun
  lab_09 :
      Host → (String → ℕ) → (page_size : ℕ) → String → (first second mapped advised : Bool) → LabRun
  lab_10 :
      Host → (ℕ → Option ℕ) → (page_size : ℕ) → Option ℕ → (shared : Bool) → Option String → LabRun
  lab_11 : Host → (first huge second : Bool) → LabRun
  lab_12 : (String → Bool) → Option (List ℕ) → Host → LabRun
  lab_13 : Host → (mapped : Bool) → LabRun
  lab_16 : (policy : ℕ) (nice : String) → Host → LabRun
  lab_17 :
      (String → Option String)
      → (String → Option ℕ)
      → (List ℕ → String)
      → Option (List ℕ)
      → Host
      → (ℕ → Option File)
      → (String → Bool)
      → (pid : ℕ) → LabRun
  lab_26 : (pid sigusr1 : ℕ) → Host → (mapped : Bool) → LabRun
  lab_28 : Host → (mapped : Bool) → LabRun
  lab_30 : (created linked : Bool) → Option Stat → Option Stat → Host → LabRun
  lab_32 : (opened tmp_opened created tmp_opened_again : Bool) → LabRun
  lab_33 : Host → LabRun
  lab_34 : (String → Bool) → Host → LabRun
  lab_35 : (nice : String) → (ℕ → Bool) → Host → LabRun
  lab_37 : Host → LabRun
  lab_38 : (ℕ → Registers) → (List ℕ → String) → Host → LabRun
  lab_39 : (String → String) → (String → Option ℕ) → Host → LabRun
  lab_40 : (online : ℕ) → Option (List String) → (pinned first second : Bool) → Host → LabRun

abbrev pub run_of : LabRun → Run
run_of (lab_01 shared_global host stat) = goes (AddressSpace.main shared_global host stat)
run_of (lab_02 cpuid as_text atol configured online hosts) =
    goes (Machine.main cpuid as_text atol configured online hosts)
run_of (lab_04 s host) = goes (PhysicalMemory.main s host)
run_of (lab_07 host) = goes (KernelMemory.main host)
run_of (lab_08 map page_size stack heap mapping code p1 p2 huge host) =
    Intro.main map page_size stack heap mapping code p1 p2 huge host
run_of (lab_09 host rss page_size target first second mapped advised) =
    Faults.main host rss page_size target first second mapped advised
run_of (lab_10 host mmap page_size region shared target) =
    Areas.main host mmap page_size region shared target
run_of (lab_11 host first huge second) = goes (Tables.huge_main host first huge second)
run_of (lab_12 exists variable host) = goes (Boot.main exists variable host)
run_of (lab_13 host mapped) = Tables.tables_main host mapped
run_of (lab_16 policy nice host) = goes (Scheduler.pcb_main policy nice host)
run_of (lab_17 name_text ppid_text as_text cmdline host status stat pid) =
    goes (Ancestors.main name_text ppid_text as_text cmdline host status stat pid)
run_of (lab_26 pid sigusr1 host mapped) = Delivery.main pid sigusr1 host mapped
run_of (lab_28 host mapped) = Memory.main host mapped
run_of (lab_30 created linked st st2 host) = Filesystem.fs_main created linked st st2 host
run_of (lab_32 opened tmp_opened created tmp_opened_again) =
    goes (Recovery.main opened tmp_opened created tmp_opened_again)
run_of (lab_33 host) = goes (Filesystem.journal_main host)
run_of (lab_34 enforcing host) = goes (Machines.protection_main enforcing host)
run_of (lab_35 nice mask host) = goes (Scheduler.scheduling_main nice mask host)
run_of (lab_37 host) = goes (Machines.kernel_main host)
run_of (lab_38 cpuid as_text host) = goes (Machines.virtualization_main cpuid as_text host)
run_of (lab_39 atol inode host) = goes (Cloud.cloud_main atol inode host)
run_of (lab_40 online names pinned first second host) =
    goes (Cloud.gpu_main online names pinned first second host)

-- What the run needs beyond that: labs 08, 09, 10, 13, 26 and 28 write through the results of allocations that they do not look at,
-- lab 08 returns with one of two mappings in place if the other has failed, and lab 30 reads what `stat` should have written.
abbrev pub IsServed : LabRun → Type 0
IsServed (lab_08 map page_size stack heap mapping code p1 p2 huge host) =
    ((h : ℕ) × (heap ≡ some h))
    × ((m : ℕ) × (mapping ≡ some m))
    × ((a : ℕ) × (p1 ≡ some a))
    × ((b : ℕ) × (p2 ≡ some b))
IsServed (lab_09 host rss page_size target first second mapped advised) =
    (first ≡ true) × (second ≡ true)
IsServed (lab_10 host mmap page_size region shared target) = shared ≡ true
IsServed (lab_13 host mapped) = mapped ≡ true
IsServed (lab_26 pid sigusr1 host mapped) = mapped ≡ true
IsServed (lab_28 host mapped) = mapped ≡ true
IsServed (lab_30 created linked st st2 host) =
    ((a : Stat) × (st ≡ some a)) × ((b : Stat) × (st2 ≡ some b))
IsServed run = Unit {0}
