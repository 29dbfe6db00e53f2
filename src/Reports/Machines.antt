-- ===== src/Reports/Machines.antt =====
-- labs/lab_34_protection.c, labs/lab_37_kernel_arch.c and labs/lab_38_virtualization.c. `atoi` is nonzero where
-- `enforcing` says so, and `as_text` stands for `printf` of the bytes of the registers.
use Prim.Native.String.{String}
use text.Mathlib.Text.{starts_with}
use linux_page_cache_lab.Base.{ℕ, Bool, List, [], ◌∷◌, ◌++◌, if◌then◌else◌}
use linux_page_cache_lab.Report.{Event, says, Host}
use linux_page_cache_lab.Report.Files.{
  reading, first_lines, first_value, values_in, lines_with, status_path, cut, answer,
}
use linux_page_cache_lab.Machine.{Registers, bit, bytes_of}

abbrev pub enforcing_line : (enforcing : String → Bool) → List String → List Event
enforcing_line enforcing [] = []
enforcing_line enforcing (l ∷ ls) = answer (enforcing (cut l)) "YES" "NO (permissive/disabled)"

-- `main` of lab 34, without the addresses that it prints.
unfoldable pub protection_main : (enforcing : String → Bool) → Host → List Event
protection_main enforcing host =
    lines_with host 0 (status_path host.pid) (λ l. starts_with l "Cap") []
    ++ reading (host.file 0 "/sys/fs/selinux/enforce") "/sys/fs/selinux/enforce"
        (says "SELinux: not present" ∷ []) (λ f. enforcing_line enforcing f.lines)

abbrev pub tunables : List String
tunables =
    "ostype" ∷ "osrelease" ∷ "version" ∷ "hostname" ∷ "pid_max" ∷ "threads-max"
    ∷ "randomize_va_space" ∷ "panic" ∷ "perf_event_paranoid" ∷ "kptr_restrict" ∷ []

-- `main` of lab 37.
unfoldable pub kernel_main : Host → List Event
kernel_main host =
    values_in host 0 "/proc/sys/kernel/" tunables
    ++ (reading (host.file 0 "/proc/sys/kernel/bpf_stats_enabled")
          "/proc/sys/kernel/bpf_stats_enabled" [] (λ f. first_lines f.lines 1)
        ++ first_value host 0 "/proc/sys/kernel/unprivileged_bpf_disabled"
            "unprivileged_bpf_disabled" [])

abbrev pub hypervisor : (cpuid : ℕ → Registers) → (as_text : List ℕ → String) → List Event
hypervisor cpuid as_text =
    if bit (cpuid 1).ecx 31
    then says "SET (running in VM)"
      ∷ says (
          as_text (
            bytes_of (cpuid 1073741824).ebx
            ++ (bytes_of (cpuid 1073741824).ecx ++ bytes_of (cpuid 1073741824).edx)))
      ∷ []
    else says "NOT SET (bare metal likely)" ∷ []

-- `main` of lab 38, for x86-64.
unfoldable pub virtualization_main :
    (cpuid : ℕ → Registers) → (as_text : List ℕ → String) → Host → List Event
virtualization_main cpuid as_text host =
    hypervisor cpuid as_text
    ++ (reading (host.file 0 "/dev/kvm") "/dev/kvm" (says "/dev/kvm not available" ∷ [])
          (λ f. says "KVM available" ∷ [])
        ++ (reading (host.file 0 "/dev/vfio/vfio") "/dev/vfio/vfio" (says "VFIO not available" ∷ [])
              (λ f. says "VFIO available" ∷ [])
            ++ first_value host 0 "ls /sys/kernel/iommu_groups/ | wc -l" "IOMMU groups" []))
