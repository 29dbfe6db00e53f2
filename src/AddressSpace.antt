-- ===== src/AddressSpace.antt =====
-- labs/lab_01_threads_addr_fs.c: threads that share variables (Threads), a child process with a copy of
-- them, the lines of /proc/self/maps and their classes (Regions), and device files.
pub mod Threads
pub mod Regions
pub mod Clean
use Prim.Native.String.{String, slice, find}
use linux_page_cache_lab.Base.{
  ℕ, zero, suc, ◌+◌, ◌/◌, ◌%◌, Bool, true, false, Option, none, some, List, [], ◌∷◌, ◌++◌, leb,
  if◌then◌else◌,
}
use linux_page_cache_lab.Report.{
  Event, line, says, shows, forks, Run, goes, ◌▸◌, File, Host, contains,
}
use linux_page_cache_lab.Report.Files.{reading, first_lines}

-- `demo_process_isolation`: `fork` gives the child a copy of both variables.
pub record Variables : Type 0 where
  pub shared_global : ℕ
  pub test_var : ℕ

abbrev pub child_events : Variables → List Event
child_events copy =
    let written = record copy { test_var = 999 } in
    shows "value" written.test_var ∷ shows "shared_global" written.shared_global ∷ []

abbrev pub demo_process_isolation : (shared_global : ℕ) → List Event
demo_process_isolation shared_global =
    let own : Variables = record { shared_global = shared_global; test_var = 500 } in
    shows "value" own.test_var ∷ forks ∷ shows "test_var" own.test_var ∷ []

-- `count` after the loop `while (fgets(...) && count < max)`.
abbrev pub count_lines : List String → (max : ℕ) → ℕ
count_lines [] max = 0
count_lines (l ∷ ls) zero = 0
count_lines (l ∷ ls) (suc max) = suc (count_lines ls max)

-- That loop, and the note if `count >= max`.
abbrev pub print_counted : List String → (max : ℕ) → List Event
print_counted ls max =
    first_lines ls max
    ++ (if leb max (count_lines ls max) then says "  ... (truncated" ∷ [] else [])

abbrev pub demo_address_space_map : Host → List Event
demo_address_space_map host =
    reading (host.file 0 "/proc/self/maps") "/proc/self/maps" (says "fopen /proc/self/maps" ∷ [])
      (λ f. print_counted f.lines 20)

-- What `stat` says of a device file.
pub data DeviceKind : Type 0 where
  character block other : DeviceKind

abbrev pub type_char : DeviceKind → String
type_char character = "c"
type_char block = "b"
type_char other = "?"

-- The low byte of `st_rdev`, and the byte above it.
abbrev pub major_of : ℕ → ℕ
major_of rdev = rdev / 256 % 256

abbrev pub minor_of : ℕ → ℕ
minor_of rdev = rdev % 256

abbrev pub device_line : Option (DeviceKind × ℕ) → String → List Event
device_line none path = []
device_line (some (kind, rdev)) path =
    says path
    ∷ says (type_char kind)
    ∷ shows "major" (major_of rdev)
    ∷ shows "minor" (minor_of rdev)
    ∷ []

abbrev pub device_lines : (String → Option (DeviceKind × ℕ)) → List String → List Event
device_lines stat [] = []
device_lines stat (path ∷ paths) = device_line (stat path) path ++ device_lines stat paths

-- `interesting`.
abbrev pub interesting : List String
interesting =
    "/dev/null" ∷ "/dev/zero" ∷ "/dev/urandom" ∷ "/dev/tty" ∷ "/dev/sda" ∷ "/dev/loop0"
    ∷ "/dev/pts/0" ∷ []

abbrev pub demo_fs_devices : (String → Option (DeviceKind × ℕ)) → List Event
demo_fs_devices stat = device_lines stat interesting

-- The counters of `demo_count_vma_regions`.
pub record Counts : Type 0 where
  pub total : ℕ
  pub anon : ℕ
  pub file_backed : ℕ
  pub special : ℕ
  pub has_vdso : Bool
  pub has_vvar : Bool
  pub has_heap : Bool
  pub has_stack : Bool

abbrev pub no_counts : Counts
no_counts = record {
  total = 0;
  anon = 0;
  file_backed = 0;
  special = 0;
  has_vdso = false;
  has_vvar = false;
  has_heap = false;
  has_stack = false;
}

-- The chain of `else if`, on what the tests answer.
abbrev pub count_by : Counts → (vdso vvar heap stack file : Bool) → Counts
count_by c true vvar heap stack file = record c { has_vdso = true; special = c.special + 1 }
count_by c false true heap stack file = record c { has_vvar = true; special = c.special + 1 }
count_by c false false true stack file = record c { has_heap = true; special = c.special + 1 }
count_by c false false false true file = record c { has_stack = true; special = c.special + 1 }
count_by c false false false false true = record c { file_backed = c.file_backed + 1 }
count_by c false false false false false = record c { anon = c.anon + 1 }

abbrev pub count_line : Counts → String → Counts
count_line c l =
    count_by (record c { total = c.total + 1 }) (contains l "[vdso]") (contains l "[vvar]")
      (contains l "[heap]") (contains l "[stack]") (contains l "/")

unfoldable pub count_regions : Counts → List String → Counts
count_regions c [] = c
count_regions c (l ∷ ls) = count_regions (count_line c l) ls

abbrev pub flag : Bool → ℕ
flag true = 1
flag false = 0

abbrev pub counts_shown : Counts → List Event
counts_shown c =
    shows "Total VMAs" c.total
    ∷ shows "File-backed" c.file_backed
    ∷ shows "Anonymous" c.anon
    ∷ shows "Special kernel" c.special
    ∷ shows "vdso" (flag c.has_vdso)
    ∷ shows "vvar" (flag c.has_vvar)
    ∷ shows "heap" (flag c.has_heap)
    ∷ shows "stack" (flag c.has_stack)
    ∷ []

abbrev pub limit_shown : List String → List Event
limit_shown [] = []
limit_shown (l ∷ ls) = says (slice l 0 (find l "\n")) ∷ []

-- The second file is read only if the first has opened.
abbrev pub demo_count_vma_regions : Host → List Event
demo_count_vma_regions host = elim (host.file 1 "/proc/self/maps") [
  | none ↦ says "fopen /proc/self/maps" ∷ []
  | some f ↦
      reading (some f) "/proc/self/maps" [] (λ g. [])
      ++ (counts_shown (count_regions no_counts f.lines)
          ++ reading (host.file 2 "/sys/fs/cgroup/memory.max") "/sys/fs/cgroup/memory.max" []
              (λ g. limit_shown g.lines))
]

-- `main`, after the threads of its first part have left `shared_global` with a value.
unfoldable pub main : (shared_global : ℕ) → Host → (String → Option (DeviceKind × ℕ)) → List Event
main shared_global host stat =
    demo_process_isolation shared_global
    ++ (demo_address_space_map host ++ (demo_fs_devices stat ++ demo_count_vma_regions host))
