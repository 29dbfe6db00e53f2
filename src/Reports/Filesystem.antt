-- ===== src/Reports/Filesystem.antt =====
-- labs/lab_30_fs_impl.c and labs/lab_33_ext4_journal.c.
use Prim.Native.String.{String}
use text.Mathlib.Text.{starts_with}
use linux_page_cache_lab.Base.{
  ℕ, ◌/◌, ◌%◌, Bool, true, false, not, ◌&&◌, Option, none, some, List, [], ◌∷◌, ◌++◌, ◌==◌,
  if◌then◌else◌,
}
use linux_page_cache_lab.Report.{
  Event, opens, closes, line, says, shows, Run, goes, undefined, ◌▸◌, File, Host, contains,
}
use linux_page_cache_lab.Report.Files.{reading, first_lines, all_lines, cut}

-- `struct stat`, as far as lab 30 prints it.
pub record Stat : Type 0 where
  pub st_ino : ℕ
  pub st_size : ℕ
  pub st_blocks : ℕ
  pub st_nlink : ℕ
  pub st_mode : ℕ
  pub st_dev : ℕ

abbrev pub stat_shown : Option Stat → List Event
stat_shown none = []
stat_shown (some st) =
    shows "inode number" st.st_ino
    ∷ shows "size" st.st_size
    ∷ shows "disk blocks" st.st_blocks
    ∷ shows "hard link count" st.st_nlink
    ∷ shows "permissions" (st.st_mode % 4096)
    ∷ shows "device" st.st_dev
    ∷ shows "major" (st.st_dev / 256 % 256)
    ∷ shows "minor" (st.st_dev % 256)
    ∷ []

abbrev pub same_inode : Stat → Stat → Event
same_inode st st2 = says (if st.st_ino == st2.st_ino then "YES" else "NO")

-- The second link, if `link` succeeds. The fields of a `stat` that has failed were never written, and are read.
abbrev pub link_shown : (linked : Bool) → Option Stat → Option Stat → Run
link_shown false st st2 = goes []
link_shown true none st2 = undefined (says "Hard link" ∷ [])
link_shown true (some st) none = undefined (says "Hard link" ∷ [])
link_shown true (some st) (some st2) = goes (
    says "Hard link"
    ∷ same_inode st st2
    ∷ shows "orig" st.st_ino
    ∷ shows "link" st2.st_ino
    ∷ shows "Link count on both" st2.st_nlink
    ∷ says "unlink"
    ∷ [])

abbrev pub temp_file : (created linked : Bool) → Option Stat → Option Stat → Run
temp_file false linked st st2 = goes []
temp_file true linked st st2 =
    goes (opens "/tmp/lab30_iXXXXXX" ∷ closes "/tmp/lab30_iXXXXXX" ∷ stat_shown st)
    ▸ link_shown linked st st2
    ▸ goes (says "unlink" ∷ [])

-- The mode that the options of a mount name, the first of the three in this order.
abbrev pub journal_mode : String → List Event
journal_mode l =
    if contains l "data=journal"
    then says "data=journal" ∷ []
    else (if contains l "data=writeback"
        then says "data=writeback" ∷ []
        else (if contains l "data=ordered" then says "data=ordered" ∷ [] else []))

-- The first mount on `/` whose device does not start with `none`.
abbrev pub root_mount : List String → List Event
root_mount [] = []
root_mount (l ∷ ls) =
    let rest = root_mount ls in
    if not (starts_with l "none") && contains l " / " then line l ∷ journal_mode l else rest

-- `main` of lab 30.
unfoldable pub fs_main : (created linked : Bool) → Option Stat → Option Stat → Host → Run
fs_main created linked st st2 host =
    goes (
      reading (host.file 0 "/proc/mounts") "/proc/mounts" [] (λ f. first_lines f.lines 10)
      ++ reading (host.file 0 "/proc/sys/fs/dentry-state") "/proc/sys/fs/dentry-state" []
          (λ f. first_lines f.lines 1))
    ▸ temp_file created linked st st2
    ▸ goes (reading (host.file 1 "/proc/mounts") "/proc/mounts" [] (λ f. root_mount f.lines))

-- The entries that `ls` lists, without their newlines.
abbrev pub entries : List String → List Event
entries [] = []
entries (l ∷ ls) = says (cut l) ∷ entries ls

abbrev pub none_listed : List String → List Event
none_listed [] = says "(none -- no ext4 mounted" ∷ []
none_listed (l ∷ ls) = []

abbrev pub listed : Option File → List Event
listed none = []
listed (some f) =
    opens "ls /proc/fs/ext4/"
    ∷ (entries f.lines ++ (closes "ls /proc/fs/ext4/" ∷ none_listed f.lines))

-- `main` of lab 33.
unfoldable pub journal_main : Host → List Event
journal_main host =
    reading (host.file 0 "mount | grep ext4 | head -3") "mount | grep ext4 | head -3" []
      (λ f. all_lines f.lines)
    ++ (reading (host.file 0 "cat /proc/fs/jbd2/*/info") "cat /proc/fs/jbd2/*/info" []
          (λ f. first_lines f.lines 15)
        ++ (listed (host.file 0 "ls /proc/fs/ext4/")
            ++ reading (host.file 0 "cat /proc/fs/ext4/*/mb_groups") "cat /proc/fs/ext4/*/mb_groups"
                [] (λ f. all_lines f.lines)))
