-- ===== src/Reports/Scheduler.antt =====
-- labs/lab_16_scheduler_pcb.c and labs/lab_35_scheduling.c.
use Prim.Native.String.{String, ◌++◌ as joined}
use text.Mathlib.Text.{starts_with}
use linux_page_cache_lab.Base.{
  ℕ, zero, suc, ◌+◌, Bool, ◌||◌, List, [], ◌∷◌, ◌++◌, ◌==◌, if◌then◌else◌,
}
use linux_page_cache_lab.Report.{Event, says, shows, Host}
use linux_page_cache_lab.Report.Files.{
  reading, first_lines, starts_with_any, contains_any, select_lines, take_lines, values_in,
  lines_with, status_path,
}

abbrev pub sched_path : (pid : String) → String
sched_path pid = joined "/proc/" (joined pid "/sched")

-- SCHED_OTHER, SCHED_FIFO and SCHED_RR, as Linux numbers them.
abbrev pub policy_name : ℕ → String
policy_name policy =
    if policy == 0
    then "SCHED_OTHER (CFS)"
    else (if policy == 1 then "SCHED_FIFO" else (if policy == 2 then "SCHED_RR" else "UNKNOWN"))

abbrev pub sched_names : List String
sched_names =
    "se.vruntime" ∷ "nr_switches" ∷ "prio" ∷ "wait_sum" ∷ "exec_max" ∷ "sum_exec_runtime"
    ∷ "se.nr_migrations" ∷ []

-- The test on a line of /proc/PID/sched; it is made on the first 20 lines.
abbrev pub is_sched_line : String → Bool
is_sched_line l = contains_any sched_names l || starts_with l "("

abbrev pub status_keys : List String
status_keys = "voluntary" ∷ "nonvoluntary" ∷ "Threads:" ∷ "SigCgt:" ∷ []

-- `main` of lab 16; the nice value may be negative and is a text.
unfoldable pub pcb_main : (policy : ℕ) (nice : String) → Host → List Event
pcb_main policy nice host =
    reading (host.file 0 (sched_path host.pid)) (sched_path host.pid) []
      (λ f. first_lines f.lines 15)
    ++ (says (policy_name policy)
        ∷ says nice
        ∷ (reading (host.file 1 (sched_path host.pid)) (sched_path host.pid)
              (says "cannot open" ∷ []) (λ f. select_lines is_sched_line (take_lines 20 f.lines))
            ++ lines_with host 1 (status_path host.pid) (starts_with_any status_keys) []))

-- The processors below `left + i` from `i` on that the mask has.
abbrev pub affinity : (mask : ℕ → Bool) → (left i : ℕ) → List Event
affinity mask zero i = []
affinity mask (suc left) i =
    (if mask i then shows "CPU" i ∷ [] else []) ++ affinity mask left (i + 1)

abbrev pub tunables : List String
tunables = "sched_min_granularity_ns" ∷ "sched_latency_ns" ∷ "sched_migration_cost_ns" ∷ []

-- `main` of lab 35.
unfoldable pub scheduling_main : (nice : String) (mask : ℕ → Bool) → Host → List Event
scheduling_main nice mask host =
    says nice
    ∷ (reading (host.file 0 "/proc/sys/kernel/sched_min_granularity_ns")
          "/proc/sys/kernel/sched_min_granularity_ns" [] (λ f. first_lines f.lines 1)
        ++ (affinity mask 16 0 ++ (says nice ∷ values_in host 1 "/proc/sys/kernel/" tunables)))
