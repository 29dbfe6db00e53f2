-- ===== src/Tests/Locks.antt =====
-- The counting threads of labs 18 to 20.
use linux_page_cache_lab.Base.{
  ℕ, ◌*◌, ◌≡◌, refl, arith, Star, here, next, some, none, update, ◌≤◌, ◌⊎◌, steps,
}
use linux_page_cache_lab.Race
use linux_page_cache_lab.Race.{at, loaded}
use linux_page_cache_lab.Race.Atomic.{safe_complete}
use linux_page_cache_lab.Race.Values.{racy_bounds, racy_values}
use linux_page_cache_lab.Increment
use linux_page_cache_lab.Increment.{Worker}
use linux_page_cache_lab.Increment.Labs.{coarse_worker, fine_worker, lab_20_tables}
use linux_page_cache_lab.Increment.Progress.{completes, locks_complete}

-- A thread alone runs its two rounds.
abbrev alone : Race.System
alone = record {
  counter = 2;
  pc =
      update (update (update (update (λ _. at 0) 0 (loaded 0 0)) 0 (at 1)) 0 (loaded 1 1)) 0 (at 2);
}

alone_run : Star (Race.RacyStep 2 1) Race.init alone
alone_run =
    next
      (next
        (next (next here (Race.load 0 0 (omega arith) refl (omega arith)))
          (Race.store 0 0 0 (omega arith) (ground arith)))
        (Race.load 0 1 (omega arith) (ground arith) (omega arith)))
      (Race.store 0 1 1 (omega arith) (ground arith))

racy_bounds_example : (2 ≤ alone.counter) × (alone.counter ≤ 1 * 2)
racy_bounds_example = racy_bounds 2 1 (omega arith) (omega arith) alone_run (λ t h. ground arith)

racy_values_example :
    (s : Race.System) × Star (Race.RacyStep 5 3) Race.init s × Race.Joined 5 3 s × (s.counter ≡ 2)
racy_values_example = racy_values 5 3 2 (omega arith) (omega arith) (omega arith) (omega arith)

abbrev both_added : Race.System
both_added = record { counter = 2; pc = update (update (λ _. at 0) 0 (at 1)) 1 (at 1) }

safe_run : Star (Race.SafeStep 1 2) Race.init both_added
safe_run =
    next (next here (Race.fetch_add 0 0 (omega arith) refl (omega arith)))
      (Race.fetch_add 1 0 (omega arith) (ground arith) (omega arith))

safe_complete_example :
    (steps safe_run ≤ 2 * 1)
    × ((Race.Joined 1 2 both_added × (2 ≡ 2 * 1))
        ⊎ ((s' : Race.System) × Race.SafeStep 1 2 both_added s'))
safe_complete_example = safe_complete 1 2 safe_run

-- Two rounds over two buckets with a lock each.
abbrev striped : Worker
striped = record { iters = 2; cell = λ i. i; lock_of = λ c. c }

-- Thread 0 has taken the lock of its first bucket.
abbrev one_lock : Increment.System
one_lock = record {
  sh = record { locks = update (λ _. none) 0 (some 0); mem = λ _. 0 };
  pc = update (λ _. Increment.at 0) 0 (Increment.holding 0);
}

one_lock_run : Star (Increment.Step striped 3) Increment.init one_lock
one_lock_run = next here (Increment.pick 0 (omega arith) (Increment.lock (omega arith) refl))

locks_complete_example :
    (steps one_lock_run ≤ 3 * (4 * 2))
    × ((Increment.Joined striped 3 one_lock
          × ((c : ℕ) → one_lock.sh.mem c ≡ 3 * Increment.hits (λ i. i) c 2))
        ⊎ ((s' : Increment.System) × Increment.Step striped 3 one_lock s'))
locks_complete_example = locks_complete striped 3 one_lock_run

lab_20_tables_example :
    ((completes coarse_worker 4).0.sh.mem 5 ≡ 4 * 15625)
    × ((completes fine_worker 4).0.sh.mem 5 ≡ 4 * 15625)
lab_20_tables_example =
    lab_20_tables 4 (completes coarse_worker 4).1 (completes coarse_worker 4).2
      (completes fine_worker 4).1 (completes fine_worker 4).2 5 (omega arith)
