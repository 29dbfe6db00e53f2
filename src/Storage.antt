-- ===== src/Storage.antt =====
-- labs/lab_29_storage_fs.c: its reports and its sequential and strided reads (Stride); and
-- labs/lab_31_fs_ops.c, whose copy of a file is in Copy. Here `maps` and `unmaps` stand for `malloc` and
-- `free`, and a file made by `mkstemp` is unlinked where the code says so.
pub mod Stride
pub mod Copy
use Prim.Native.String.{String}
use linux_page_cache_lab.Base.{
  ℕ, zero, suc, ◌+◌, ◌*◌, ◌/◌, ◌%◌, Bool, true, false, Option, none, some, List, [], ◌∷◌, ◌++◌,
  if◌then◌else◌,
}
use linux_page_cache_lab.Report.{Event, opens, closes, maps, unmaps, line, says, shows, File, Host}
use linux_page_cache_lab.Report.Files.{reading, first_lines, all_lines}

-- `struct statvfs` and `struct stat`, as far as they are printed.
pub record FsStats : Type 0 where
  pub bsize : ℕ
  pub blocks : ℕ
  pub bfree : ℕ
  pub files : ℕ
  pub ffree : ℕ

pub record FileStats : Type 0 where
  pub ino : ℕ
  pub size : ℕ
  pub blocks : ℕ
  pub nlink : ℕ

abbrev pub fs_shown : Option FsStats → List Event
fs_shown none = []
fs_shown (some sv) =
    shows "Block size" sv.bsize
    ∷ shows "Total blocks" sv.blocks
    ∷ shows "Free blocks" sv.bfree
    ∷ shows "Total inodes" sv.files
    ∷ shows "Free inodes" sv.ffree
    ∷ []

abbrev pub file_shown : Option FileStats → List Event
file_shown none = []
file_shown (some st) =
    shows "inode" st.ino
    ∷ shows "size" st.size
    ∷ shows "blocks" st.blocks
    ∷ shows "links" st.nlink
    ∷ []

-- The second path is tried if the first cannot be opened.
abbrev pub scheduler : (sda vda : Option File) → List Event
scheduler (some f) vda =
    reading (some f) "/sys/block/sda/queue/scheduler" [] (λ g. first_lines g.lines 1)
scheduler none vda =
    reading vda "/sys/block/vda/queue/scheduler" (says "(check /sys/block/*/queue/scheduler)" ∷ [])
      (λ g. first_lines g.lines 1)

-- 4 MiB.
abbrev pub file_size : ℕ
file_size = 4194304

-- `idx` of the strided loop.
unfoldable pub stride_index : (npages i : ℕ) → ℕ
stride_index npages i = i * (npages / 2 + 1) % npages

-- The calls of `pread` for `i`, `i + 1`, …, `left` of them, of the page that `index` names.
abbrev pub preads : (index : ℕ → ℕ) → (page_size left i : ℕ) → List Event
preads index page_size zero i = []
preads index page_size (suc left) i =
    shows "pread" (index i * page_size) ∷ preads index page_size left (i + 1)

abbrev pub sequential_reads : (page_size : ℕ) → List Event
sequential_reads page_size = preads (λ i. i) page_size (file_size / page_size) 0

abbrev pub strided_reads : (page_size : ℕ) → List Event
strided_reads page_size =
    preads (stride_index (file_size / page_size)) page_size (file_size / page_size) 0

-- What the system answers in phase 5.
pub record Disk : Type 0 where
  pub page_size : ℕ
  pub mkstemp : Bool
  pub wbuf : Bool
  pub rbuf : Bool

abbrev pub close_and_unlink : List Event
close_and_unlink = closes "/tmp/lab29_ioXXXXXX" ∷ says "unlink" ∷ []

abbrev pub read_latency : Disk → List Event
read_latency d =
    if d.mkstemp
    then opens "/tmp/lab29_ioXXXXXX"
      ∷ (if d.wbuf
          then maps d.page_size
            ∷ (if d.rbuf
                then maps d.page_size
                  ∷ (sequential_reads d.page_size
                      ++ (strided_reads d.page_size
                          ++ (shows "pages" (file_size / d.page_size)
                              ∷ unmaps d.page_size
                              ∷ unmaps d.page_size
                              ∷ close_and_unlink)))
                else unmaps d.page_size ∷ close_and_unlink)
          else close_and_unlink)
    else says "mkstemp" ∷ []

unfoldable pub main : Host → Option FsStats → Option FileStats → Disk → List Event
main host sv st disk =
    reading (host.file 0 "/proc/partitions") "/proc/partitions" [] (λ f. all_lines f.lines)
    ++ (fs_shown sv
        ++ (file_shown st
            ++ (scheduler (host.file 0 "/sys/block/sda/queue/scheduler")
                  (host.file 0 "/sys/block/vda/queue/scheduler")
                ++ read_latency disk)))
