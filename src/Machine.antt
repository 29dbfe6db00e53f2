-- ===== src/Machine.antt =====
-- labs/lab_02_pc_arch.c: what it prints of the processor, of /sys and of /proc.
-- `cpuid` gives the registers for a leaf, `as_text` and `atol` stand for `printf` of bytes and for the
-- decimal text of `atol`; the files are those of the host.
pub mod Clean
use Prim.Native.String.{String, slice, find, ◌++◌ as joined}
use text.Mathlib.Text.{starts_with, ◌==◌ as str_eq}
use linux_page_cache_lab.Base.{
  ℕ, zero, suc, ◌+◌, ◌*◌, ◌/◌, ◌%◌, ◌^◌, Bool, true, false, not, ◌||◌, Option, none, some, List, [],
  ◌∷◌, ◌++◌, leb, ◌==◌, if◌then◌else◌,
}
use linux_page_cache_lab.Report.{Event, line, says, shows, File, Host}
use linux_page_cache_lab.Report.Files.{reading, select_lines, starts_with_any}
use linux_page_cache_lab.AddressSpace.{print_counted}

-- What `read_sysfs_str` leaves in the buffer; `none` is the result -1.
abbrev pub first_text : List String → Option String
first_text [] = none
first_text (l ∷ ls) = some (slice l 0 (find l "\n"))

abbrev pub read_sysfs_str : Option File → Option String
read_sysfs_str none = none
read_sysfs_str (some f) = first_text f.lines

-- It opens the file, and closes it whether `fgets` succeeds or not.
abbrev pub sysfs_events : Option File → String → List Event
sysfs_events file path = reading file path [] (λ f. [])

abbrev pub read_sysfs_long : (atol : String → String) → Option File → String
read_sysfs_long atol file = elim (read_sysfs_str file) [ none ↦ "-1" | some s ↦ atol s ]

-- The registers that the instruction `cpuid` leaves.
pub record Registers : Type 0 where
  pub eax : ℕ
  pub ebx : ℕ
  pub ecx : ℕ
  pub edx : ℕ

abbrev pub bit : ℕ → ℕ → Bool
bit register k = register / 2 ^ k % 2 == 1

-- The bytes of a register, as `memcpy` stores them.
abbrev pub bytes_of : ℕ → List ℕ
bytes_of r = r % 256 ∷ r / 256 % 256 ∷ r / 65536 % 256 ∷ r / 16777216 % 256 ∷ []

abbrev pub vendor : Registers → List ℕ
vendor r = bytes_of r.ebx ++ (bytes_of r.edx ++ bytes_of r.ecx)

abbrev pub brand_part : Registers → List ℕ
brand_part r = bytes_of r.eax ++ (bytes_of r.ebx ++ (bytes_of r.ecx ++ bytes_of r.edx))

abbrev pub yes_no : String → Bool → List Event
yes_no label b = says label ∷ says (if b then "YES" else "NO") ∷ []

module _ (cpuid : ℕ → Registers) (as_text : List ℕ → String) where
  -- 0x80000000 and the three leaves of the brand.
  abbrev pub brand_events : List Event
  brand_events =
      if leb 2147483652 (cpuid 2147483648).eax
      then says (
          as_text (
            brand_part (cpuid 2147483650)
            ++ (brand_part (cpuid 2147483651) ++ brand_part (cpuid 2147483652))))
        ∷ []
      else []

  abbrev pub demo_cpuid : List Event
  demo_cpuid =
      says (as_text (vendor (cpuid 0)))
      ∷ shows "Max CPUID leaf" (cpuid 0).eax
      ∷ (brand_events
          ++ (yes_no "Hyper-Threading" (bit (cpuid 1).edx 28)
              ++ (yes_no "SSE2" (bit (cpuid 1).edx 26)
                  ++ (yes_no "AVX" (bit (cpuid 1).ecx 28)
                      ++ (yes_no "AVX2" (bit (cpuid 7).ebx 5)
                          ++ (yes_no "AVX-512F" (bit (cpuid 7).ebx 16)
                              ++ yes_no "Running in VM" (bit (cpuid 1).ecx 31)))))))

-- The text of an index below 16, as `%d` prints it.
abbrev pub digits : List String
digits =
    "0" ∷ "1" ∷ "2" ∷ "3" ∷ "4" ∷ "5" ∷ "6" ∷ "7" ∷ "8" ∷ "9" ∷ "10" ∷ "11" ∷ "12" ∷ "13" ∷ "14"
    ∷ "15" ∷ []

abbrev pub cache_path : (index name : String) → String
cache_path index name =
    joined "/sys/devices/system/cpu/cpu0/cache/index" (joined index (joined "/" name))

-- `buf` keeps the type where the size cannot be read.
abbrev pub size_or : (type : String) → Option String → String
size_or type none = type
size_or type (some size) = size

abbrev pub cache_line : (String → String) → Host → (index type : String) → List Event
cache_line atol host index type =
    sysfs_events (host.file 1 (cache_path index "level")) (cache_path index "level")
    ++ (sysfs_events (host.file 2 (cache_path index "size")) (cache_path index "size")
        ++ (sysfs_events (host.file 3 (cache_path index "ways_of_associativity"))
              (cache_path index "ways_of_associativity")
            ++ (sysfs_events (host.file 4 (cache_path index "coherency_line_size"))
                  (cache_path index "coherency_line_size")
                ++ (says (read_sysfs_long atol (host.file 1 (cache_path index "level")))
                    ∷ says type
                    ∷ says (size_or type (read_sysfs_str (host.file 2 (cache_path index "size"))))
                    ∷ says (
                        read_sysfs_long atol
                          (host.file 3 (cache_path index "ways_of_associativity")))
                    ∷ says (
                        read_sysfs_long atol (host.file 4 (cache_path index "coherency_line_size")))
                    ∷ []))))

-- The loop ends at the first cache whose type cannot be read.
abbrev pub cache_lines : (String → String) → Host → (indices : List String) → List Event
cache_lines atol host [] = []
cache_lines atol host (index ∷ indices) =
    let path = cache_path index "type" in
    let rest = cache_lines atol host indices in
    sysfs_events (host.file 0 path) path ++ elim (read_sysfs_str (host.file 0 path)) [
      | none ↦ []
      | some type ↦ cache_line atol host index type ++ rest
    ]

abbrev pub cache_indices : List String
cache_indices = "0" ∷ "1" ∷ "2" ∷ "3" ∷ "4" ∷ "5" ∷ "6" ∷ "7" ∷ []

abbrev pub demo_cache_hierarchy : (String → String) → Host → List Event
demo_cache_hierarchy atol host = cache_lines atol host cache_indices

abbrev pub node_path : String → String
node_path n = joined "/sys/devices/system/node/node" (joined n "/cpulist")

-- A line for each NUMA node that has a list of processors; the loop does not stop at a gap.
abbrev pub node_line : (node : String) → Option String → List Event
node_line node none = []
node_line node (some cpus) = says node ∷ says cpus ∷ []

abbrev pub node_lines : Host → List String → List Event
node_lines host [] = []
node_lines host (n ∷ ns) =
    sysfs_events (host.file 0 (node_path n)) (node_path n)
    ++ (node_line n (read_sysfs_str (host.file 0 (node_path n))) ++ node_lines host ns)

-- `numa_nodes` after the loop.
abbrev pub one_if : Option String → ℕ
one_if none = 0
one_if (some cpus) = 1

unfoldable pub numa_nodes : Host → List String → ℕ
numa_nodes host [] = 0
numa_nodes host (n ∷ ns) = one_if (read_sysfs_str (host.file 0 (node_path n))) + numa_nodes host ns

abbrev pub siblings : Host → (path : String) → List Event
siblings host path =
    sysfs_events (host.file 1 path) path
    ++ elim (read_sysfs_str (host.file 1 path)) [ none ↦ [] | some cpus ↦ says cpus ∷ [] ]

abbrev pub thread_siblings : String
thread_siblings = "/sys/devices/system/cpu/cpu0/topology/thread_siblings_list"

abbrev pub core_siblings : String
core_siblings = "/sys/devices/system/cpu/cpu0/topology/core_siblings_list"

abbrev pub demo_topology : (configured online : ℕ) → Host → List Event
demo_topology configured online host =
    shows "CPUs configured" configured
    ∷ shows "CPUs online" online
    ∷ (node_lines host digits
        ++ ((if numa_nodes host digits == 0 then says "NUMA: not detected" ∷ [] else [])
            ++ (siblings host thread_siblings ++ siblings host core_siblings)))

-- `keys` of `demo_memory_info`.
abbrev pub memory_keys : List String
memory_keys =
    "MemTotal" ∷ "MemFree" ∷ "MemAvailable" ∷ "Cached" ∷ "SwapTotal" ∷ "HugePages_Total"
    ∷ "Hugepagesize" ∷ []

abbrev pub demo_memory_info : Host → List Event
demo_memory_info host =
    reading (host.file 0 "/proc/meminfo") "/proc/meminfo" (says "fopen" ∷ [])
      (λ f. select_lines (starts_with_any memory_keys) f.lines)

abbrev pub demo_iomem : Host → List Event
demo_iomem host =
    reading (host.file 0 "/proc/iomem") "/proc/iomem" (says "fopen /proc/iomem" ∷ [])
      (λ f. print_counted f.lines 30)

-- The keys of `demo_cpuinfo_iomem`.
abbrev pub cpuinfo_keys : List String
cpuinfo_keys =
    "processor" ∷ "model name" ∷ "cpu MHz" ∷ "cache size" ∷ "physical id" ∷ "flags" ∷ "bugs" ∷ []

-- The loop ends at the second empty line; `blanks` counts them.
unfoldable pub cpuinfo_lines : List String → (blanks : ℕ) → List Event
cpuinfo_lines [] blanks = []
cpuinfo_lines (l ∷ ls) blanks =
    let count = if starts_with l "\n" then blanks + 1 else blanks in
    let rest = cpuinfo_lines ls count in
    if starts_with l "\n"
    then (if leb 2 count then [] else rest)
    else (if starts_with_any cpuinfo_keys l then line l ∷ rest else rest)

abbrev pub demo_cpuinfo_iomem : Host → List Event
demo_cpuinfo_iomem host =
    reading (host.file 0 "/proc/cpuinfo") "/proc/cpuinfo" (says "fopen /proc/cpuinfo" ∷ [])
      (λ f. cpuinfo_lines f.lines 0)

-- `main`; `hosts i` is what the system answers during phase `i`.
unfoldable pub main :
    (ℕ → Registers)
    → (List ℕ → String)
    → (String → String)
    → (configured online : ℕ) → (ℕ → Host)
    → List Event
main cpuid as_text atol configured online hosts =
    demo_cpuid cpuid as_text
    ++ (demo_cache_hierarchy atol (hosts 2)
        ++ (demo_topology configured online (hosts 3)
            ++ (demo_memory_info (hosts 4)
                ++ (demo_iomem (hosts 5) ++ demo_cpuinfo_iomem (hosts 6)))))
