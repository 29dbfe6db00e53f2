-- ===== src/Tests/Queues.antt =====
-- The semaphore queue of lab 23 with one producer and one consumer.
use linux_page_cache_lab.Base.{
  ◌≤◌, ◌≡◌, refl, arith, Star, here, next, update, ℕ_discrete, ◌∷◌, [], numbers, ◌*◌, ◌⊎◌, steps,
}
use linux_page_cache_lab.Semaphores
use linux_page_cache_lab.Semaphores.{entered, left, at, put, take}
use linux_page_cache_lab.Semaphores.Refine.{view, semaphores_refine, semaphores_queue}
use linux_page_cache_lab.Fifo.Client.{queue_in_order}
use linux_page_cache_lab.Semaphores.Complete.{Joined}
use linux_page_cache_lab.Semaphores.Complete.Returned.{semaphores_complete}
use linux_page_cache_lab.Fifo

-- The producer has put item 0, and the consumer has taken it.
abbrev passed_on : Semaphores.System
passed_on = record {
  sh = take (put (Semaphores.init.sh));
  empty_slots = 4;
  full_slots = 0;
  ps = update (update (update (λ t. at 0) 0 (entered 0)) 0 (left 0)) 0 (at 1);
  cs = update (update (λ t. at 0) 0 (entered 0)) 0 (left 0);
  log = 0 ∷ [];
}

passed_on_run : Star (Semaphores.Step 1 1) Semaphores.init passed_on
unfolding put take ℕ_discrete
passed_on_run =
    next
      (next
        (next
          (next (next here (Semaphores.wait_empty 0 0 4 (omega arith) refl (omega arith) refl))
            (Semaphores.puts 0 0 (omega arith) refl))
          (Semaphores.post_full 0 0 (omega arith) refl))
        (Semaphores.wait_full 0 0 0 (omega arith) refl (omega arith) refl))
      (Semaphores.takes 0 0 (omega arith) refl)

semaphores_refine_example : Star (Fifo.Step 5) Fifo.empty (view passed_on)
semaphores_refine_example = semaphores_refine 1 1 passed_on_run

semaphores_complete_example :
    (steps passed_on_run ≤ 60 * 1)
    × ((Joined 1 1 passed_on × (0 ∷ [] ≡ numbers (10 * 1)))
        ⊎ ((s' : Semaphores.System) × Semaphores.Step 1 1 passed_on s'))
semaphores_complete_example = semaphores_complete 1 passed_on_run

-- A user of the queue learns the same of both.
in_order_by_semaphores : (view passed_on).out ≡ numbers 1
in_order_by_semaphores = (queue_in_order (semaphores_queue 1 1) passed_on_run).0
