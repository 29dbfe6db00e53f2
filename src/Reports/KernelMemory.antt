-- ===== src/Reports/KernelMemory.antt =====
-- labs/lab_07_kernel_ds_mm.c.
use Prim.Native.String.{String, ◌++◌ as joined}
use linux_page_cache_lab.Base.{List, [], ◌∷◌, ◌++◌}
use linux_page_cache_lab.Report.{Event, says, Host}
use linux_page_cache_lab.Report.Files.{
  reading, first_lines, all_lines, starts_with_any, contains_any, select_up_to, if_opened,
  first_value, lines_with,
}

abbrev pub slab_names : List String
slab_names = "task_struct" ∷ "mm_struct" ∷ "inode_cache" ∷ "dentry" ∷ []

-- The first three lines; then, from the start again, the first six that name one of the caches.
abbrev pub slab_lines : List String → List Event
slab_lines ls = first_lines ls 3 ++ select_up_to (contains_any slab_names) 6 ls

abbrev pub demo_slab_allocator : Host → List Event
demo_slab_allocator host =
    reading (host.file 0 "/proc/slabinfo") "/proc/slabinfo" (says "(need root" ∷ [])
      (λ f. slab_lines f.lines)

abbrev pub demo_buddy_allocator : Host → List Event
demo_buddy_allocator host =
    reading (host.file 0 "/proc/buddyinfo") "/proc/buddyinfo" (says "fopen" ∷ [])
      (λ f. all_lines f.lines)

abbrev pub vmstat_keys : List String
vmstat_keys =
    "nr_free_pages" ∷ "nr_active_anon" ∷ "nr_inactive_anon" ∷ "nr_active_file" ∷ "nr_inactive_file"
    ∷ "pgfault" ∷ "pgmajfault" ∷ "pswpin" ∷ "pswpout" ∷ []

abbrev pub demo_vmstat : Host → List Event
demo_vmstat host =
    lines_with host 0 "/proc/vmstat" (starts_with_any vmstat_keys) (says "fopen" ∷ [])

abbrev pub mm_keys : List String
mm_keys = "Vm" ∷ "Rss" ∷ "Threads" ∷ []

abbrev pub demo_mm_struct : Host → List Event
demo_mm_struct host = lines_with host 0 "/proc/self/status" (starts_with_any mm_keys) []

abbrev pub slab_path : (cache name : String) → String
slab_path cache name = joined "/sys/kernel/slab/" (joined cache name)

-- The second file of a cache is tried only if the first has opened.
abbrev pub cache_stats : Host → (cache : String) → List Event
cache_stats host cache = if_opened (host.file 0 (slab_path cache "/object_size")) (
    first_value host 0 (slab_path cache "/object_size") (joined cache " object_size") []
    ++ first_value host 0 (slab_path cache "/slabs_cpu_partial") (joined cache " slabs_cpu_partial")
        [])

abbrev pub demo_slub_stats : Host → List Event
demo_slub_stats host =
    cache_stats host "kmalloc-64"
    ++ (cache_stats host "kmalloc-128" ++ cache_stats host "kmalloc-256")

unfoldable pub main : Host → List Event
main host =
    demo_slab_allocator host
    ++ (demo_buddy_allocator host
        ++ (demo_vmstat host ++ (demo_mm_struct host ++ demo_slub_stats host)))
