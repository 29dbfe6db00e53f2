-- ===== src/Tests/Systems.antt =====
-- Instances of the theorems on processes, locks, files and paging.
use linux_page_cache_lab.Base.{
  ℕ, ◌+◌, ◌*◌, ◌/◌, ◌%◌, ◌<◌, ◌≤◌, ◌≡◌, refl, arith, Bool, true, false, Option, none, some, [], ◌∷◌,
  update, ℕ_discrete, ◌⊎◌, inl, inr, Star, here, next, steps, if◌then◌else◌, Option-cases,
}
use linux_page_cache_lab.Report.{Host, File, opens, closes, shows, says}
use linux_page_cache_lab.Storage.Copy.{Kernel, copy}
use linux_page_cache_lab.Storage.Copy.Copied.{copy_same}
use linux_page_cache_lab.Processes.PingPong.{System, init, Step, parent_writes, Finished}
use linux_page_cache_lab.Processes.PingPong.Turns.{round_trips}
use linux_page_cache_lab.Processes.Reaping
use linux_page_cache_lab.Processes.Reaping.{forks, exits, reaps, reaped, absent}
use linux_page_cache_lab.Processes.Reaping.Kept.{occurrences}
use linux_page_cache_lab.Processes.Reaping.Reaped.{all_reaped}
use linux_page_cache_lab.Processes.Ancestors.{demo_our_ancestors}
use linux_page_cache_lab.Processes.Ancestors.Walk.{
  Ancestors, values, last_or, lines_of, ancestors_lem,
}
use linux_page_cache_lab.Processes.Ancestors.Walk
use linux_page_cache_lab.RwLock
use linux_page_cache_lab.RwLock.{wrlock, reads_now, writes_now, Writer}
use linux_page_cache_lab.RwLock.Complete.{Joined, rwlock_complete}
use linux_page_cache_lab.Rcu.{Node, Memory, first_node, reads_from}
use linux_page_cache_lab.Rcu.Versions.{numbered, HoldsOnly, reads_count_versions}
use linux_page_cache_lab.Paging.Translate.{virt_to_phys}
use linux_page_cache_lab.Paging.Frame.{entry_of, phys_frame}
use linux_page_cache_lab.Reports.Release.{LabRun, lab_09}

-- Reads of two bytes, and writes that take all they are given, or one byte.
abbrev whole : Kernel
whole = record { read = λ pos asked. some 2; write = λ pos asked. some asked }

copy_same_example : copy whole 4 0 (7 ∷ 8 ∷ 9 ∷ []) [] ≡ some (7 ∷ 8 ∷ 9 ∷ [])
copy_same_example =
    copy_same whole (λ pos asked. (2, refl, omega arith)) (λ pos asked. refl) (7 ∷ 8 ∷ 9 ∷ [])

-- The parent has sent the first byte of two.
round_trips_example :
    (1 ≤ 4 * 2)
    × (Finished 2 (record init { parent = record (init.parent) { halfway = true }; p1 = 0 ∷ [] })
        ⊎ ((t : System) × Step 2 65536
              (record init { parent = record (init.parent) { halfway = true }; p1 = 0 ∷ [] })
              t))
unfolding steps
round_trips_example =
    round_trips (omega arith) (next here (parent_writes (omega arith) refl (omega arith)))

-- One child, forked, ended and reaped.
abbrev one_reaped : Reaping.System
one_reaped = record {
  forked = 1;
  waited = 1;
  children =
      update (update (update Reaping.init.children 0 Reaping.running) 0 Reaping.zombie) 0 reaped;
  reapings = 0 ∷ [];
}

all_reaped_example :
    (3 ≤ 3)
    × (((t : Reaping.System) × Reaping.Step 1 one_reaped t)
        ⊎ ((one_reaped.waited ≡ 1)
            × ((k : ℕ)
                → k < 1
                → ((one_reaped.children k ≡ reaped) × (occurrences k (0 ∷ []) ≡ 1))
                  ⊎ ((one_reaped.children k ≡ absent) × (occurrences k (0 ∷ []) ≡ 0)))))
unfolding ℕ_discrete steps
all_reaped_example = all_reaped 1 (
    next (next (next here (forks (omega arith))) (exits 0 (omega arith) refl))
      (reaps 0 (omega arith) refl (omega arith) refl))

-- Process 7 is a child of process 1.
abbrev status : ℕ → Option File
status pid = some (record { lines = "PPid:\t1\n" ∷ []; unended = false })

one_step : Ancestors (λ l. none) (λ l. some 1) status (record { pid = 7; name = "?" } ∷ []) 7 1
unfolding values last_or
one_step = Walk.up (omega arith) refl Walk.here

ancestors_lem_example :
    demo_our_ancestors (λ l. none) (λ l. some 1) status 7
    ≡ opens "/proc/PID/status"
      ∷ closes "/proc/PID/status"
      ∷ shows "indent" 0
      ∷ shows "PID" 7
      ∷ says "?"
      ∷ shows "PID 1 (init/systemd)" 2
      ∷ []
unfolding lines_of
ancestors_lem_example =
    ancestors_lem (λ l. none) (λ l. some 1) status (omega arith) one_step (inl (omega arith))

-- The second of two writers is inside.
abbrev second_writes : RwLock.System
second_writes = record RwLock.init {
  writing = true;
  writers = update RwLock.init.writers 1 (Writer.locked 0);
}

one_inside : Star (RwLock.Step 4 2 5 5) RwLock.init second_writes
one_inside = next here (wrlock 1 0 (omega arith) (omega arith) refl refl refl)

rwlock_complete_example :
    (steps one_inside ≤ 4 * (2 * 5) + 2 * (3 * 5))
    × ((Joined 5 5 4 2 second_writes × (0 ≡ 2 * 5))
        ⊎ ((u : RwLock.System) × RwLock.Step 4 2 5 5 second_writes u))
rwlock_complete_example = rwlock_complete 5 5 4 2 one_inside

-- `malloc` that gives the first of the addresses 0 and 1 that is free.
abbrev held : Option Node → Bool
held none = false
held (some node) = true

abbrev two_slots : (ℕ → Option Node) → ℕ
two_slots h = if held (h 0) then 1 else 0

two_slots-IsFree : (m : Memory) (node : Node) → HoldsOnly m node → m.heap (two_slots m.heap) ≡ none
two_slots-IsFree m node holds = elim (Option-cases (m.heap 0)) [
  | inl e ↦ rw e e
  | inr (n, e) ↦ rw e (holds.alone 1 (λ one. cc (e, holds.alone 0 (λ zero. cc))))
]

reads_count_versions_example :
    (end : Memory) × (last : Node) × (reads_from two_slots (42 ∷ 99 ∷ []) (first_node two_slots)
      ≡ some (numbered 0 0 (42 ∷ 99 ∷ []), end))
    × HoldsOnly end last
reads_count_versions_example = reads_count_versions two_slots two_slots-IsFree (42 ∷ 99 ∷ [])

phys_frame_example :
    (virt_to_phys (record { opened = true; pread = λ offset. some (entry_of 1 5) }) 4096 20500
        / 4096
      ≡ 5)
    × (virt_to_phys (record { opened = true; pread = λ offset. some (entry_of 1 5) }) 4096 20500
          % 4096
        ≡ 20500 % 4096)
phys_frame_example =
    phys_frame (record { opened = true; pread = λ offset. some (entry_of 1 5) }) 4096 20500 1 5 refl
      refl (omega arith) (omega arith) (omega arith) (omega arith)

-- Every file can be opened and has one line.
abbrev one_line : Host
one_line = record {
  pid = "7";
  ppid = "1";
  file = λ moment path. some (record { lines = "task_struct\n" ∷ []; unended = false });
  address = λ moment. none;
  opens_exe = true;
  minor = λ moment. 0;
  major = λ moment. 0;
  child_pid = none;
  exit_status = none;
}

abbrev faults_run : LabRun
faults_run = lab_09 one_line (λ l. 0) 4096 "1000" true true true true
