-- ===== src/Exercises/Proc.antt =====
-- The exercises of labs/process_memory_exercises.c that read /proc: 1, 5, 7, 8, 9 and 10.
use Prim.Native.String.{String, len, find, slice, ◌++◌ as joined}
use text.Mathlib.Text.{starts_with, ◌==◌ as str_eq}
use linux_page_cache_lab.Base.{
  ℕ, ◌≡◌, ◌+◌, Option, none, some, List, [], ◌∷◌, ◌++◌, ltb, if◌then◌else◌,
}
use linux_page_cache_lab.Report.{
  Event, line, says, shows, undefined, ◌▸◌, forks, Run, goes, File, Host,
}
use linux_page_cache_lab.Report.Files.{
  reading_run, reading, first_lines, print_proc_file, find_line, select_lines, starts_with_any,
  status_path,
}

-- `fields` of exercise 1.
abbrev pub status_fields : List String
status_fields =
    "Name" ∷ "Pid" ∷ "PPid" ∷ "Threads" ∷ "VmPeak" ∷ "VmSize" ∷ "VmRSS" ∷ "VmData" ∷ "VmStk"
    ∷ "VmExe" ∷ "VmPTE" ∷ "voluntary_ctxt_switches" ∷ "nonvoluntary_ctxt_switches" ∷ []

abbrev pub ex_task_struct : Host → Run
ex_task_struct host = goes (
    reading (host.file 0 (status_path host.pid)) (status_path host.pid) (says "fopen status" ∷ [])
      (λ f. select_lines (starts_with_any status_fields) f.lines))

-- `s[strcspn(s, "\n")] = 0`.
abbrev pub before_newline : String → String
before_newline s = slice s 0 (find s "\n")

-- `fgets` into `cmdline`, which holds "(unknown)" before.
abbrev pub first_or_unknown : List String → String
first_or_unknown [] = "(unknown)"
first_or_unknown (l ∷ ls) = before_newline l

-- `char b[16]; fgets(b, sizeof b, f); printf("%s", b)`, where the result of `fgets` is not looked at.
-- Where `fgets` gives nothing, `printf` reads bytes that were never written, with no end.
abbrev pub print_first_unchecked : List String → Run
print_first_unchecked [] = undefined []
print_first_unchecked (l ∷ ls) = goes (line l ∷ [])

abbrev pub comm_name : Option File → String
comm_name none = "(unknown)"
comm_name (some f) = first_or_unknown f.lines

abbrev pub proc_path : String → String → String
proc_path pid name = joined "/proc/" (joined pid (joined "/" name))

-- What exercise 5 prints of the process `pid`; the handle on `comm` is closed before the line.
abbrev pub oom_of : Host → (pid : String) → Run
oom_of host pid =
    goes (
      reading (host.file 2 (proc_path pid "comm")) (proc_path pid "comm") [] (λ f. [])
      ++ (says pid ∷ says (comm_name (host.file 2 (proc_path pid "comm"))) ∷ []))
    ▸ reading_run (host.file 3 (proc_path pid "oom_score")) (proc_path pid "oom_score")
        (λ f. print_first_unchecked f.lines)
    ▸ reading_run (host.file 4 (proc_path pid "oom_score_adj")) (proc_path pid "oom_score_adj")
        (λ f. print_first_unchecked f.lines)

abbrev pub ex_oom_killer : Host → Run
ex_oom_killer host =
    let score = proc_path host.pid "oom_score" in
    let adj = proc_path host.pid "oom_score_adj" in
    goes (print_proc_file (host.file 0 score) score 1 ++ print_proc_file (host.file 1 adj) adj 1)
    ▸ oom_of host "1"
    ▸ oom_of host "2"

-- The two files that exercise 5 reads of a process, where they open, have a line.
abbrev pub HasLine : Option File → Type 0
HasLine o = (f : File) → o ≡ some f → (l : String) × (ls : List String) × (f.lines ≡ l ∷ ls)

pub record HasScores (host : Host) (pid : String) : Type 0 where
  pub score : HasLine (host.file 3 (proc_path pid "oom_score"))
  pub adj : HasLine (host.file 4 (proc_path pid "oom_score_adj"))

-- `annotations` of exercise 7.
abbrev pub annotations : List (String × String)
annotations =
    (("MemTotal", "Total usable RAM (kernel reserved memory excluded)"))
    ∷ (("MemFree", "Completely unused RAM (not cache, not buffers)"))
    ∷ (("MemAvailable", "Estimate of RAM available without swapping (use this, not MemFree)"))
    ∷ (("Buffers", "Kernel block-layer I/O buffers (small, mostly metadata)"))
    ∷ (("Cached", "Page cache: file content cached in RAM"))
    ∷ (("SwapCached", "Pages swapped out but still in swap cache (fast re-access)"))
    ∷ (("Active", "Pages recently used (unlikely to be reclaimed)"))
    ∷ (("Inactive", "Pages not recently used (candidates for reclaim)"))
    ∷ (("SwapTotal", "Total swap space (disk or zram)"))
    ∷ (("SwapFree", "Unused swap space"))
    ∷ (("Dirty", "Pages modified in page cache not yet written to disk"))
    ∷ (("Writeback", "Pages being written back to disk right now"))
    ∷ (("AnonPages", "Anonymous pages mapped into processes (heap, stack, mmap anon)"))
    ∷ (("Mapped", "Files mapped into memory (mmap'd files, shared libs)"))
    ∷ (("Shmem", "Shared memory (tmpfs, SysV shm, shared anon mmap)"))
    ∷ (("KReclaimable", "Kernel memory that can be reclaimed under pressure"))
    ∷ (("Slab", "Total SLUB/SLAB allocator memory"))
    ∷ (("SReclaimable", "Reclaimable slab (dcache, icache — freed under pressure)"))
    ∷ (("SUnreclaim", "Unreclaimable slab (kernel data structures always needed)"))
    ∷ (("PageTables", "Memory used by page table entries"))
    ∷ (("VmallocTotal", "Total vmalloc virtual address space"))
    ∷ (("VmallocUsed", "Used vmalloc space (kernel modules, ioremap)"))
    ∷ (("HugePages_Total", "Pre-allocated 2 MiB huge pages"))
    ∷ (("AnonHugePages", "Transparent huge pages in use by anonymous regions"))
    ∷ []

-- `sscanf(line, "%63[^:]", key)`: nothing for a line that is empty or starts with a colon.
abbrev pub key_of : String → String
key_of l = if ltb (find l ":") 63 then slice l 0 (find l ":") else slice l 0 63

abbrev pub annotate : List (String × String) → (key rest : String) → List Event
annotate [] key rest = []
annotate ((name, explanation) ∷ table) key rest =
    let others = annotate table key rest in
    if str_eq key name then says rest ∷ says explanation ∷ [] else others

-- Every line is printed; before it the rest of the line and the explanation, if its key has one.
abbrev pub meminfo_lines : List String → List Event
meminfo_lines [] = []
meminfo_lines (l ∷ ls) =
    annotate annotations (key_of l) (slice l (len (key_of l) + 1) (len l))
    ++ (line l ∷ meminfo_lines ls)

abbrev pub ex_meminfo_tour : Host → Run
ex_meminfo_tour host = goes (
    reading (host.file 0 "/proc/meminfo") "/proc/meminfo" (says "fopen /proc/meminfo" ∷ [])
      (λ f. meminfo_lines f.lines))

abbrev pub ex_kthreads : Host → Run
ex_kthreads host = goes (print_proc_file (host.file 0 "/proc/2/status") "/proc/2/status" 8)

-- What the child of exercise 9 does before `_exit(42)`; it has handles of its own.
abbrev pub lineage_child : Host → List Event
lineage_child host =
    says host.pid
    ∷ says host.ppid
    ∷ reading (host.file 0 (status_path host.pid)) (status_path host.pid) []
        (λ f. first_lines f.lines 6)

-- `fork` gives -1 where it fails; the parent does not test for that.
abbrev pub child_text : Option String → String
child_text none = "-1"
child_text (some pid) = pid

-- `WIFEXITED(status) ? WEXITSTATUS(status) : -1`, after a `waitpid` that fails if there is no child and then leaves
-- `status` as it was, never written.
abbrev pub reap : Option String → Option ℕ → Run
reap none status = undefined []
reap (some pid) none = goes (says pid ∷ says "exit_status=-1" ∷ [])
reap (some pid) (some status) = goes (says pid ∷ shows "exit_status" status ∷ [])

-- The parent of exercise 9.
abbrev pub ex_process_lineage : Host → Run
ex_process_lineage host =
    let path = status_path (child_text host.child_pid) in
    goes (
      says host.pid
      ∷ says host.ppid
      ∷ forks
      ∷ says (child_text host.child_pid)
      ∷ reading (host.file 0 path) path (says "already gone" ∷ [])
          (λ f. find_line (λ l. starts_with l "State") f.lines))
    ▸ reap host.child_pid host.exit_status

-- `cg_paths` of exercise 10.
abbrev pub cgroup_paths : List String
cgroup_paths =
    "/sys/fs/cgroup/memory.max" ∷ "/sys/fs/cgroup/memory.current" ∷ "/sys/fs/cgroup/memory.high"
    ∷ "/sys/fs/cgroup/cpu.max" ∷ "/sys/fs/cgroup/cpu.stat" ∷ "/sys/fs/cgroup/memory.stat" ∷ []

abbrev pub cgroup_lines : Host → List String → List Event
cgroup_lines host [] = []
cgroup_lines host (path ∷ paths) =
    reading (host.file 0 path) path (says "(not found" ∷ []) (λ f. first_lines f.lines 1)
    ++ cgroup_lines host paths

abbrev pub ex_cgroup_memory : Host → Run
ex_cgroup_memory host = goes (cgroup_lines host cgroup_paths)
