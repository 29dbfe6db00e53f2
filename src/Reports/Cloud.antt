-- ===== src/Reports/Cloud.antt =====
-- labs/lab_39_cloud_compute.c and labs/lab_40_gpu_os.c. `atol` gives the text of the number of bytes.
use Prim.Native.String.{String, slice, len, ◌++◌ as joined}
use text.Mathlib.Text.{starts_with, ◌==◌ as str_eq}
use linux_page_cache_lab.Base.{
  ℕ, suc, Bool, true, false, Option, none, some, List, [], ◌∷◌, ◌++◌, if◌then◌else◌, ◌/◌,
}
use linux_page_cache_lab.Report.{
  Event, opens, closes, maps, unmaps, says, shows, File, Host, contains,
}
use linux_page_cache_lab.Report.Files.{
  reading, first_lines, all_lines, cut, value_shown, lines_with,
}
use linux_page_cache_lab.Machine.{read_sysfs_str, sysfs_events}

-- The second path is tried if the first cannot be opened.
abbrev pub first_of : Host → (moment : ℕ) → (path other : String) → (File → List Event) → List Event
first_of host moment path other body = elim (host.file moment path) [
  | none ↦ reading (host.file moment other) other [] body
  | some f ↦ reading (some f) path [] body
]

abbrev pub namespaces : List String
namespaces = "cgroup" ∷ "ipc" ∷ "mnt" ∷ "net" ∷ "pid" ∷ "user" ∷ "uts" ∷ []

-- `inode` answers `stat` on a file of /proc/self/ns.
abbrev pub namespace_lines : (inode : String → Option ℕ) → List String → List Event
namespace_lines inode [] = []
namespace_lines inode (n ∷ ns) =
    let rest = namespace_lines inode ns in
    elim (inode n) [ none ↦ rest | some i ↦ shows n i ∷ rest ]

-- `cgpath`: the last line of cgroup version 2 counts, and each is printed.
abbrev pub cgroup_path : (cgpath : String) → List String → String
cgroup_path cgpath [] = cgpath
cgroup_path cgpath (l ∷ ls) =
    cgroup_path (if starts_with l "0::" then cut (slice l 3 (len l)) else cgpath) ls

abbrev pub cgroup_lines : List String → List Event
cgroup_lines [] = []
cgroup_lines (l ∷ ls) =
    let rest = cgroup_lines ls in
    if starts_with l "0::" then says (cut (slice l 3 (len l))) ∷ rest else rest

abbrev pub lines_of : Option File → List String
lines_of none = []
lines_of (some f) = f.lines

abbrev pub limit_line : (atol : String → String) → List String → List Event
limit_line atol [] = []
limit_line atol (l ∷ ls) =
    if str_eq (cut l) "max"
    then says "memory.max: max" ∷ []
    else says (cut l) ∷ says (atol (cut l)) ∷ []

abbrev pub limit_path : (cgpath name : String) → String
limit_path cgpath name = joined "/sys/fs/cgroup" (joined cgpath name)

abbrev pub limits : (atol : String → String) → Host → List Event
limits atol host =
    let cgpath = cgroup_path "" (lines_of (host.file 1 "/proc/self/cgroup")) in
    reading (host.file 1 "/proc/self/cgroup") "/proc/self/cgroup" [] (λ f. cgroup_lines f.lines)
    ++ (first_of host 1 (limit_path cgpath "/memory.max") "/sys/fs/cgroup/memory.max"
          (λ f. limit_line atol f.lines)
        ++ first_of host 1 (limit_path cgpath "/pids.max") "/sys/fs/cgroup/pids.max"
            (λ f. value_shown "pids.max" f.lines))

-- `main` of lab 39.
unfoldable pub cloud_main :
    (atol : String → String) → (inode : String → Option ℕ) → Host → List Event
cloud_main atol inode host =
    reading (host.file 0 "/proc/self/cgroup") "/proc/self/cgroup" [] (λ f. all_lines f.lines)
    ++ (first_of host 0 "/sys/fs/cgroup/memory.max" "/sys/fs/cgroup/memory/memory.limit_in_bytes"
          (λ f. first_lines f.lines 1)
        ++ (namespace_lines inode namespaces ++ limits atol host))

abbrev pub node_path : String → String
node_path n = joined "/sys/devices/system/node/node" (joined n "/cpulist")

abbrev pub gpu_path : String → String
gpu_path name = joined "/proc/driver/nvidia/gpus/" (joined name "/information")

-- Unlike in lab 02, the loop ends at the first node without a list.
abbrev pub numa_lines : Host → List String → List Event
numa_lines host [] = []
numa_lines host (n ∷ ns) =
    let rest = numa_lines host ns in
    sysfs_events (host.file 0 (node_path n)) (node_path n)
    ++ elim (read_sysfs_str (host.file 0 (node_path n))) [
      | none ↦ []
      | some cpus ↦ says n ∷ says cpus ∷ rest
    ]

abbrev pub node_numbers : List String
node_numbers = "0" ∷ "1" ∷ "2" ∷ "3" ∷ "4" ∷ "5" ∷ "6" ∷ "7" ∷ []

-- The entries of the directory in the order of `readdir`; `g` counts the files that have opened.
abbrev pub gpu_lines : Host → (names : List String) → (g : ℕ) → List Event
gpu_lines host [] g = []
gpu_lines host (name ∷ names) g =
    if starts_with name "." then gpu_lines host names g else elim (host.file 0 (gpu_path name)) [
      | none ↦ gpu_lines host names g
      | some f ↦
          reading (some f) (gpu_path name) [] (λ h. shows "GPU" g ∷ all_lines h.lines)
          ++ gpu_lines host names (suc g)
    ]

-- `opendir` and `closedir` count as `opens` and `closes`.
abbrev pub gpus : Host → Option (List String) → List Event
gpus host none = says "No NVIDIA GPUs detected" ∷ []
gpus host (some names) =
    opens "/proc/driver/nvidia/gpus"
    ∷ (gpu_lines host names 0 ++ (closes "/proc/driver/nvidia/gpus" ∷ []))

-- A value that `read_sysfs` gives is printed, and nothing otherwise.
abbrev pub sysfs_line : Host → (path label : String) → List Event
sysfs_line host path label =
    sysfs_events (host.file 0 path) path ++ elim (read_sysfs_str (host.file 0 path)) [
      | none ↦ []
      | some value ↦ says label ∷ says value ∷ []
    ]

-- 64 MiB; `maps` and `unmaps` stand for `malloc` and `free` in this lab.
abbrev pub buffer_size : ℕ
buffer_size = 67108864

abbrev pub shared_buffer : (first second : Bool) → List Event
shared_buffer false second = []
shared_buffer true second =
    maps buffer_size
    ∷ shows "MiB" (buffer_size / 1048576)
    ∷ shows "pages" (buffer_size / 4096)
    ∷ ((if second
          then maps buffer_size ∷ shows "MiB" (buffer_size / 1048576) ∷ unmaps buffer_size ∷ []
          else [])
        ++ (unmaps buffer_size ∷ []))

-- `main` of lab 40.
unfoldable pub gpu_main :
    (online : ℕ) → Option (List String) → (pinned first second : Bool) → Host → List Event
gpu_main online names pinned first second host =
    shows "Online CPUs" online
    ∷ (numa_lines host node_numbers
        ++ (gpus host names
            ++ ((if pinned then says "Pinned to CPU 0" ∷ [] else [])
                ++ (sysfs_line host "/sys/kernel/mm/transparent_hugepage/enabled" "THP"
                    ++ (sysfs_line host "/sys/devices/system/cpu/cpu0/cpufreq/scaling_governor"
                          "CPU governor"
                        ++ (shared_buffer first second
                            ++ lines_with host 0 "/proc/self/limits"
                                (λ l. contains l "Max locked memory") []))))))
