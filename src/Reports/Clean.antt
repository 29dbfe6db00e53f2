-- ===== src/Reports/Clean.antt =====
-- The balance of the runs of labs 04, 07, 12, 16, 26, 28, 34, 35, 37 and 38.
use Prim.Native.String.{String}
use linux_page_cache_lab.Base.{true, ℕ, zero, suc, ◌+◌, Bool, List, Option, none, some, [], ◌∷◌}
use linux_page_cache_lab.Report.{Event, Host, opens, closes}
use linux_page_cache_lab.Report.Balance.{
  IsClean, goes-IsClean, IsBalanced, append-IsBalanced, none-IsBalanced, reading-IsBalanced,
  say-IsBalanced, show-IsBalanced, if-IsBalanced, plain-IsBalanced, line-IsPlain, open-IsBalanced,
  map-IsBalanced,
}
use linux_page_cache_lab.Report.Balance.Files.{
  first_lines-IsBalanced, all_lines-IsBalanced, select_lines-IsBalanced, select_up_to-IsBalanced,
  value_shown-IsBalanced, first_value-IsBalanced, values_in-IsBalanced, lines_with-IsBalanced,
  if_opened-IsBalanced,
}
use linux_page_cache_lab.Machine.{Registers}
use linux_page_cache_lab.Reports.KernelMemory
use linux_page_cache_lab.Reports.PhysicalMemory.{Segments}
use linux_page_cache_lab.Reports.PhysicalMemory
use linux_page_cache_lab.Reports.Delivery.{handler, signal_received, hundred_pages, fault_counts}
use linux_page_cache_lab.Reports.Delivery
use linux_page_cache_lab.Reports.Boot.{secure_boot, secure_boot_line}
use linux_page_cache_lab.Reports.Boot
use linux_page_cache_lab.Reports.Scheduler.{affinity}
use linux_page_cache_lab.Reports.Scheduler
use linux_page_cache_lab.Reports.Memory
use linux_page_cache_lab.Reports.Machines.{enforcing_line, hypervisor}
use linux_page_cache_lab.Reports.Machines

pub ruleset balance = (
  append-IsBalanced, none-IsBalanced, reading-IsBalanced, first_lines-IsBalanced,
  all_lines-IsBalanced, select_lines-IsBalanced, select_up_to-IsBalanced, say-IsBalanced,
  show-IsBalanced, value_shown-IsBalanced, first_value-IsBalanced, values_in-IsBalanced,
  lines_with-IsBalanced, if-IsBalanced, if_opened-IsBalanced,
)

pub physical_memory-IsBalanced :
    (s : Segments) (host : Host) → IsBalanced (PhysicalMemory.main s host)
unfolding PhysicalMemory.main
physical_memory-IsBalanced s host = search balance depth 14

pub delivery-IsClean :
    (pid sigusr1 : ℕ) (host : Host) → IsClean (Delivery.main pid sigusr1 host true)
unfolding Delivery.main
delivery-IsClean pid sigusr1 host = goes-IsClean (
    show-IsBalanced _ pid (
      append-IsBalanced {xs = signal_received sigusr1 (handler sigusr1 0)} (search balance)
        (map-IsBalanced {es = fault_counts host} hundred_pages (search balance depth 8))))

pub kernel_memory-IsBalanced : (host : Host) → IsBalanced (KernelMemory.main host)
unfolding KernelMemory.main
kernel_memory-IsBalanced host = search balance depth 12

secure_boot_line-IsBalanced : (bytes : List ℕ) → IsBalanced (secure_boot_line bytes)
secure_boot_line-IsBalanced (a ∷ b ∷ c ∷ d ∷ e ∷ rest) = say-IsBalanced _ none-IsBalanced
secure_boot_line-IsBalanced [] = none-IsBalanced
secure_boot_line-IsBalanced (a ∷ []) = none-IsBalanced
secure_boot_line-IsBalanced (a ∷ b ∷ []) = none-IsBalanced
secure_boot_line-IsBalanced (a ∷ b ∷ c ∷ []) = none-IsBalanced
secure_boot_line-IsBalanced (a ∷ b ∷ c ∷ d ∷ []) = none-IsBalanced

-- A file that is closed before its content is looked at.
pub closed-IsBalanced :
    (path : String) {es : List Event} → IsBalanced es → IsBalanced (opens path ∷ closes path ∷ es)
closed-IsBalanced path p = append-IsBalanced (open-IsBalanced path none-IsBalanced) p

secure_boot-IsBalanced : (o : Option (List ℕ)) → IsBalanced (secure_boot o)
secure_boot-IsBalanced none = say-IsBalanced _ none-IsBalanced
secure_boot-IsBalanced (some bytes) = closed-IsBalanced _ (secure_boot_line-IsBalanced bytes)

pub boot-IsBalanced :
    (exists : String → Bool) (o : Option (List ℕ)) (host : Host)
    → IsBalanced (Boot.main exists o host)
unfolding Boot.main
boot-IsBalanced exists o host = search (balance, secure_boot-IsBalanced) depth 14

affinity-IsBalanced : (mask : ℕ → Bool) (left i : ℕ) → IsBalanced (affinity mask left i)
affinity-IsBalanced mask zero i = none-IsBalanced
affinity-IsBalanced mask (suc left) i =
    append-IsBalanced (if-IsBalanced (mask i) (show-IsBalanced _ _ none-IsBalanced) none-IsBalanced)
      (affinity-IsBalanced mask left (i + 1))

pub pcb-IsBalanced :
    (policy : ℕ) (nice : String) (host : Host) → IsBalanced (Scheduler.pcb_main policy nice host)
unfolding Scheduler.pcb_main
pcb-IsBalanced policy nice host = search balance depth 12

pub scheduling-IsBalanced :
    (nice : String) (mask : ℕ → Bool) (host : Host)
    → IsBalanced (Scheduler.scheduling_main nice mask host)
unfolding Scheduler.scheduling_main
scheduling-IsBalanced nice mask host = search (balance, affinity-IsBalanced) depth 12

pub memory-IsClean : (host : Host) → IsClean (Memory.main host true)
unfolding Memory.main
memory-IsClean host =
    goes-IsClean
      (append-IsBalanced (map-IsBalanced Memory.region none-IsBalanced) (search balance depth 12))

pub protection-IsBalanced :
    (enforcing : String → Bool) (host : Host) → IsBalanced (Machines.protection_main enforcing host)
unfolding Machines.protection_main
protection-IsBalanced enforcing host = search (balance, shown) depth 12
  where
    shown : (ls : List String) → IsBalanced (enforcing_line enforcing ls)
    shown [] = none-IsBalanced
    shown (l ∷ ls) = say-IsBalanced _ none-IsBalanced

pub kernel-IsBalanced : (host : Host) → IsBalanced (Machines.kernel_main host)
unfolding Machines.kernel_main
kernel-IsBalanced host = search balance depth 12

pub virtualization-IsBalanced :
    (cpuid : ℕ → Registers) (as_text : List ℕ → String) (host : Host)
    → IsBalanced (Machines.virtualization_main cpuid as_text host)
unfolding Machines.virtualization_main
virtualization-IsBalanced cpuid as_text host = search balance depth 12
