-- ===== src/Exercises.antt =====
-- labs/process_memory_exercises.c: ten exercises, and `main`, which runs them in order. Each takes
-- the system's answers during that exercise.
pub mod Proc
pub mod Memory
pub mod Kinds
pub mod Clean
pub mod Sums
pub mod Printed
use linux_page_cache_lab.Base.{ℕ}
use linux_page_cache_lab.Report.{Host, Run, ◌▸◌}
use linux_page_cache_lab.Exercises.Proc.{
  ex_task_struct, ex_oom_killer, ex_meminfo_tour, ex_kthreads, ex_process_lineage, ex_cgroup_memory,
}
use linux_page_cache_lab.Exercises.Memory.{
  ex_mm_struct, ex_page_fault_lifecycle, ex_mmap_types, ex_huge_pages,
}

-- `hosts i` is what the system answers during exercise `i`.
unfoldable pub main : (ℕ → Host) → Run
main hosts =
    ex_task_struct (hosts 1)
    ▸ ex_mm_struct (hosts 2)
    ▸ ex_page_fault_lifecycle (hosts 3)
    ▸ ex_mmap_types (hosts 4)
    ▸ ex_oom_killer (hosts 5)
    ▸ ex_huge_pages (hosts 6)
    ▸ ex_meminfo_tour (hosts 7)
    ▸ ex_kthreads (hosts 8)
    ▸ ex_process_lineage (hosts 9)
    ▸ ex_cgroup_memory (hosts 10)
