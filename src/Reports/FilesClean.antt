-- ===== src/Reports/FilesClean.antt =====
-- The balance of the runs of labs 30, 32 and 33.
use Prim.Native.String.{String}
use text.Mathlib.Text.{starts_with}
use linux_page_cache_lab.Base.{
  Bool, true, false, not, ◌&&◌, List, Option, none, some, [], ◌∷◌, ◌++◌,
}
use linux_page_cache_lab.Report.{Event, Host, File, opens, closes, says, contains}
use linux_page_cache_lab.Report.Balance.{
  IsClean, goes-IsClean, then-IsClean, IsBalanced, append-IsBalanced, none-IsBalanced,
  say-IsBalanced, if-IsBalanced, plain-IsBalanced, line-IsPlain, open-IsBalanced,
}
use linux_page_cache_lab.Reports.Filesystem.{
  Stat, stat_shown, link_shown, temp_file, root_mount, fs_main, entries, none_listed, listed,
  journal_main,
}
use linux_page_cache_lab.Reports.Recovery.{on_handle, fsync_tmp, atomic_update}
use linux_page_cache_lab.Reports.Recovery
use linux_page_cache_lab.Reports.Clean.{balance, closed-IsBalanced}

stat-IsBalanced : (o : Option Stat) → IsBalanced (stat_shown o)
stat-IsBalanced none = none-IsBalanced
stat-IsBalanced (some st) = search balance depth 12

link-IsClean : (linked : Bool) (st st2 : Stat) → IsClean (link_shown linked (some st) (some st2))
link-IsClean false st st2 = goes-IsClean none-IsBalanced
link-IsClean true st st2 = goes-IsClean (search balance depth 12)

temp_file-IsClean :
    (created linked : Bool) (st st2 : Stat)
    → IsClean (temp_file created linked (some st) (some st2))
temp_file-IsClean false linked st st2 = goes-IsClean none-IsBalanced
temp_file-IsClean true linked st st2 =
    then-IsClean (goes-IsClean (closed-IsBalanced _ (stat-IsBalanced (some st))))
      (then-IsClean (link-IsClean linked st st2) (goes-IsClean (say-IsBalanced _ none-IsBalanced)))

root_mount-IsBalanced : (ls : List String) → IsBalanced (root_mount ls)
root_mount-IsBalanced [] = none-IsBalanced
root_mount-IsBalanced (l ∷ ls) =
    if-IsBalanced (not (starts_with l "none") && contains l " / ")
      (plain-IsBalanced (line-IsPlain l) (search balance depth 6)) (root_mount-IsBalanced ls)

pub fs-IsClean :
    (created linked : Bool) (st st2 : Stat) (host : Host)
    → IsClean (fs_main created linked (some st) (some st2) host)
unfolding fs_main
fs-IsClean created linked st st2 host = then-IsClean (goes-IsClean (search balance depth 8)) (
    then-IsClean (temp_file-IsClean created linked st st2)
      (goes-IsClean (search (balance, root_mount-IsBalanced) depth 8)))

entries-IsBalanced : (ls : List String) → IsBalanced (entries ls)
entries-IsBalanced [] = none-IsBalanced
entries-IsBalanced (l ∷ ls) = say-IsBalanced _ (entries-IsBalanced ls)

listed-IsBalanced : (o : Option File) → IsBalanced (listed o)
listed-IsBalanced none = none-IsBalanced
listed-IsBalanced (some f) = by_lines f.lines
  where
    by_lines :
        (ls : List String)
        → IsBalanced (
            opens "ls /proc/fs/ext4/"
            ∷ (entries ls ++ (closes "ls /proc/fs/ext4/" ∷ none_listed ls)))
    by_lines [] = closed-IsBalanced _ (say-IsBalanced _ none-IsBalanced)
    by_lines (l ∷ ls) = open-IsBalanced _ (entries-IsBalanced (l ∷ ls))

on_handle-IsBalanced :
    (opened : Bool) (path : String) {calls : List Event}
    → IsBalanced calls
    → IsBalanced (on_handle opened path calls)
on_handle-IsBalanced false path p = p
on_handle-IsBalanced true path p = open-IsBalanced path p

fsync_tmp-IsBalanced : (tmp_opened : Bool) → IsBalanced (fsync_tmp tmp_opened)
fsync_tmp-IsBalanced false = none-IsBalanced
fsync_tmp-IsBalanced true = open-IsBalanced _ (say-IsBalanced _ none-IsBalanced)

atomic_update-IsBalanced :
    (created tmp_opened : Bool) → IsBalanced (atomic_update created tmp_opened)
atomic_update-IsBalanced false tmp_opened = none-IsBalanced
atomic_update-IsBalanced true tmp_opened =
    append-IsBalanced
      (open-IsBalanced {es = says "write" ∷ says "fsync" ∷ []} _ (search balance depth 6))
      (say-IsBalanced _ (append-IsBalanced (fsync_tmp-IsBalanced tmp_opened) (search balance)))

pub recovery-IsBalanced :
    (opened tmp_opened created tmp_opened_again : Bool)
    → IsBalanced (Recovery.main opened tmp_opened created tmp_opened_again)
unfolding Recovery.main
recovery-IsBalanced opened tmp_opened created tmp_opened_again =
    append-IsBalanced
      (append-IsBalanced (on_handle-IsBalanced opened _ (search balance depth 6)) (
        say-IsBalanced _ (
          append-IsBalanced (on_handle-IsBalanced tmp_opened _ (search balance depth 6))
            (search balance))))
      (atomic_update-IsBalanced created tmp_opened_again)

pub journal-IsBalanced : (host : Host) → IsBalanced (journal_main host)
unfolding journal_main
journal-IsBalanced host = search (balance, listed-IsBalanced) depth 12
