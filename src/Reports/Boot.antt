-- ===== src/Reports/Boot.antt =====
-- labs/lab_12_kernel_boot.c; `exists` answers `access`.
use Prim.Native.String.{String}
use linux_page_cache_lab.Base.{
  ℕ, Bool, Option, none, some, List, [], ◌∷◌, ◌++◌, ◌==◌, if◌then◌else◌,
}
use linux_page_cache_lab.Report.{Event, opens, closes, says, Host}
use linux_page_cache_lab.Report.Files.{
  reading, first_lines, all_lines, contains_any, select_up_to, first_value, answer,
}

abbrev pub demo_cmdline : Host → List Event
demo_cmdline host =
    reading (host.file 0 "/proc/cmdline") "/proc/cmdline" [] (λ f. first_lines f.lines 1)

abbrev pub patterns : List String
patterns = "Memory:" ∷ "BIOS-e820:" ∷ "page tables" ∷ "kernel" ∷ "Zone" ∷ []

abbrev pub demo_boot_memory : Host → List Event
demo_boot_memory host =
    reading (host.file 0 "dmesg") "dmesg" (says "(need root)" ∷ [])
      (λ f. select_up_to (contains_any patterns) 25 f.lines)

abbrev pub demo_kernel_version : Host → List Event
demo_kernel_version host =
    reading (host.file 0 "/proc/version") "/proc/version" [] (λ f. first_lines f.lines 1)
    ++ reading (host.file 0 "zcat /proc/config.gz") "zcat /proc/config.gz"
        (says "(/proc/config.gz not available" ∷ []) (λ f. all_lines f.lines)

-- The five bytes of the variable: four of attributes and the value. Fewer bytes give no line.
abbrev pub secure_boot_line : List ℕ → List Event
secure_boot_line (a ∷ b ∷ c ∷ d ∷ e ∷ rest) = answer (e == 0) "DISABLED" "ENABLED"
secure_boot_line short = []

abbrev pub secure_boot : Option (List ℕ) → List Event
secure_boot none = says "Secure Boot: cannot read" ∷ []
secure_boot (some bytes) = opens "SecureBoot" ∷ closes "SecureBoot" ∷ secure_boot_line bytes

abbrev pub demo_kexec_tpm : (exists : String → Bool) → Option (List ℕ) → Host → List Event
demo_kexec_tpm exists variable host =
    first_value host 0 "/sys/kernel/kexec_loaded" "kexec_loaded" (says "kexec_loaded: missing" ∷ [])
    ++ (first_value host 0 "/sys/kernel/kexec_crash_loaded" "kexec_crash_loaded" []
        ++ (answer (exists "/dev/tpm0") "TPM device" "no TPM device"
            ++ ((if exists "/dev/tpmrm0" then says "TPM resource manager" ∷ [] else [])
                ++ secure_boot variable)))

unfoldable pub main : (exists : String → Bool) → Option (List ℕ) → Host → List Event
main exists variable host =
    demo_cmdline host
    ++ (demo_boot_memory host ++ (demo_kernel_version host ++ demo_kexec_tpm exists variable host))
