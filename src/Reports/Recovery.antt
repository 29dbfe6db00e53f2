-- ===== src/Reports/Recovery.antt =====
-- labs/lab_32_crash_recovery.c: the calls with which it replaces a file, in their order. Their results are not looked at,
-- but for those of the two calls that open in phase 4.
pub mod Disk
pub mod Crash
use Prim.Native.String.{String}
use linux_page_cache_lab.Base.{Bool, true, false, List, [], ◌∷◌, ◌++◌}
use linux_page_cache_lab.Report.{Event, opens, closes, says}

-- `open` gives a handle or fails; the calls on it are made in either case, and then `close`, which takes nothing back after a
-- failure.
abbrev pub on_handle : (opened : Bool) → String → List Event → List Event
on_handle false path calls = calls
on_handle true path calls = opens path ∷ (calls ++ (closes path ∷ []))

-- Phase 2.
abbrev pub fsync_order : (opened tmp_opened : Bool) → List Event
fsync_order opened tmp_opened =
    on_handle opened "/tmp/lab32_new.dat" (says "write" ∷ says "fsync" ∷ [])
    ++ (says "rename"
        ∷ (on_handle tmp_opened "/tmp" (says "fsync" ∷ [])
            ++ (says "unlink /tmp/lab32_final.dat" ∷ [])))

-- `if (dfd >= 0) { fsync(dfd); close(dfd); }`.
abbrev pub fsync_tmp : (tmp_opened : Bool) → List Event
fsync_tmp false = []
fsync_tmp true = on_handle true "/tmp" (says "fsync" ∷ [])

-- Phase 4.
abbrev pub atomic_update : (created tmp_opened : Bool) → List Event
atomic_update false tmp_opened = []
atomic_update true tmp_opened =
    on_handle true "/tmp/lab32_new_XXXXXX" (says "write" ∷ says "fsync" ∷ [])
    ++ (says "rename" ∷ (fsync_tmp tmp_opened ++ (says "unlink /tmp/lab32_final_v2.dat" ∷ [])))

unfoldable pub main : (opened tmp_opened created tmp_opened_again : Bool) → List Event
main opened tmp_opened created tmp_opened_again =
    fsync_order opened tmp_opened ++ atomic_update created tmp_opened_again
