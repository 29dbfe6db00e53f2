-- ===== src/Lib.antt =====
-- The labs of this repository: small C programs about processes, memory, files and locks.
-- Their pure logic and their shared state are modelled here; the operating system is a parameter.
--
-- Base: numbers, lists, families of threads, runs of a step relation, and `Outcome`, the result of
--   code that may end the process (`exit`) or, in a model of a loop, run out of fuel.
-- PageCache: labs/page_cache_models.c. `args` is the split of the file, `read_range` the read loop,
--   `thread_round` and `process_round` the two kinds of round, and `main` reads the arguments and runs
--   the rounds. The loop of `read_range` has `remaining + 1` rounds of fuel, since each read takes at
--   least a byte off `remaining`. The file's content, the answers of `read`, the fault counters and the
--   success of each call are parameters; `getrusage` of the calling process is taken to succeed. Times and the layout of the printed lines are not modelled.
-- Race: labs/lab_18_concurrency.c, the racy and the atomic counter as step relations, and the flag of phase 4 (Publish).
-- Increment: labs/lab_19_locking.c and labs/lab_20_finegrained_lock.c, threads that increment cells
--   of memory under mutexes or spin locks.
-- Fifo: the queue that the two labs on producers and consumers implement, as a specification, and what it takes to
--   refine it (Order).
-- BoundedBuffer: labs/lab_22_condvar.c, the monitor with its two condition variables.
-- Scan: the strided sum and `memset` on the bytes of a mapping; a scan of `n` bytes has `n + 1` rounds of
--   fuel, since each round moves at least one byte.
-- DemandPaging: labs/demand_paging.c, `main` with its three phases over the mapping.
-- Report: what the programs that read /proc share: the events of a run (files opened and closed, memory
--   mapped and unmapped, lines and numbers printed), the loops over lines, and the balance of a run.
-- Exercises: labs/process_memory_exercises.c, the ten exercises (Proc, Memory) and `main`. Text that is the
--   same in every run and time measurements are not modelled.
-- AddressSpace: labs/lab_01_threads_addr_fs.c, its threads as a step relation (Threads) and its reports of
--   /proc/self/maps, of device files and of the cgroup limit.
-- Machine: labs/lab_02_pc_arch.c, what it prints of the processor, of /sys and of /proc.
-- Semaphores: labs/lab_23_mpmc_semaphore.c, the queue with two semaphores and a mutex.
-- Futex: labs/lab_25_sync_primitives.c, the futex of its first phase; its fourth is in Race/Publish.
-- LockFree: labs/lab_24_lockfree.c, `push` and `pop` over a heap of nodes as a step relation, and the pops of
--   `main`, which have a round of fuel more than there are nodes. That the pushers come to their end is in Complete.
-- RwLock: labs/lab_21_lock_variations.c, readers and writers of its first phase, and the
--   sequence counter of its fourth (Seqlock), whose read is taken beside a writer too; Trylock has the others, on
--   mutexes that are a parameter.
-- Rcu: labs/lab_36_rcu_lockfree.c, the updates and reads of `global_data`.
-- Processes: labs/lab_14_processes_in_action.c (Reaping), labs/lab_15_context_switching.c (PingPong) and
--   labs/lab_17_first_process.c (Ancestors).
-- Traps: labs/lab_05_segmentation_traps.c (Segv) and labs/lab_06_trap_handlers.c (Signals), the handlers and their jumps
--   back; which instructions fault is a parameter.
-- Storage: labs/lab_29_storage_fs.c, its reports and read orders, and labs/lab_31_fs_ops.c (Copy). The copy loop has a
--   round of fuel more than the source has bytes, since each read but the last gives a byte at least.
-- Paging: labs/lab_08_paging_intro.c (Translate, Intro), labs/lab_09_paging_deep.c (Faults), labs/lab_10_addr_space_paging.c
--   (Areas), labs/lab_11_tlb_hugepages.c and labs/lab_13_user_page_tables.c (Tables, and Strides for the scans).
-- Reports: labs/lab_04_phys_mem_io.c (PhysicalMemory), labs/lab_26_signals_demand.c (Delivery), labs/lab_07_kernel_ds_mm.c
--   (KernelMemory), labs/lab_12_kernel_boot.c (Boot), labs/lab_16_scheduler_pcb.c and
--   labs/lab_35_scheduling.c (Scheduler), labs/lab_28_page_replace.c (Memory, Locality), labs/lab_30_fs_impl.c and
--   labs/lab_33_ext4_journal.c (Filesystem), labs/lab_32_crash_recovery.c (Recovery, and Recovery/Disk and
--   Recovery/Crash for its calls on a file system, which is a parameter with what POSIX says of the calls as hypotheses), labs/lab_34_protection.c, labs/lab_37_kernel_arch.c and
--   labs/lab_38_virtualization.c (Machines), labs/lab_39_cloud_compute.c and labs/lab_40_gpu_os.c (Cloud). Of the output they
--   keep what depends on the run; Release has all of them as one type of runs.
-- Calling: labs/lab_03_x86_calling.c, its sums and its recursion over stack frames.
-- Files are told apart by their paths and mappings by their sizes. A run goes on to its end, dies by a signal, or is undefined
--   from a read of what was never written on.
-- Not modelled: file systems and schedulers of the kernel, the weak memory orders, times, the scripts and the prose.
pub mod Base
pub mod Increment
pub mod Race
pub mod Futex
pub mod Semaphores
pub mod LockFree
pub mod Calling
pub mod Paging
pub mod Reports
pub mod Rcu
pub mod RwLock
pub mod Processes
pub mod Storage
pub mod Traps
pub mod PageCache
pub mod Fifo
pub mod BoundedBuffer
pub mod Scan
pub mod Report
pub mod Exercises
pub mod AddressSpace
pub mod Machine
pub mod DemandPaging
mod Tests
