-- ===== src/Fifo.antt =====
-- What the buffers of labs/lab_22_condvar.c and labs/lab_23_mpmc_semaphore.c promise: a bounded first-in first-out
-- queue, into which 0, 1, 2, … go, and what has come out of it. The two labs implement it by a ring.
pub mod Order
pub mod Slots
pub mod Client
use linux_page_cache_lab.Base.{ℕ, ◌+◌, ◌<◌, ◌≡◌, List, [], ◌∷◌, ◌++◌, length}

pub record Fifo : Type 0 where
  pub waiting : List ℕ
  pub next_item : ℕ
  pub out : List ℕ

abbrev pub empty : Fifo
empty = record { waiting = []; next_item = 0; out = [] }

-- One more item goes in, if there is room, or the first one comes out.
pub data Step (cap : ℕ) (q q' : Fifo) : Type 0 where
  enqueue :
      length q.waiting < cap
      → q'.waiting ≡ q.waiting ++ (q.next_item ∷ [])
      → q'.next_item ≡ q.next_item + 1
      → q'.out ≡ q.out
      → Step cap q q'
  dequeue :
      (x : ℕ)
      → q.waiting ≡ x ∷ q'.waiting
      → q'.next_item ≡ q.next_item
      → q'.out ≡ q.out ++ (x ∷ [])
      → Step cap q q'

-- Seen from outside, a step of an implementation does nothing or is one of the queue's.
pub data Seen (cap : ℕ) (q q' : Fifo) : Type 0 where
  nothing : q'.waiting ≡ q.waiting → q'.next_item ≡ q.next_item → q'.out ≡ q.out → Seen cap q q'
  visible : Step cap q q' → Seen cap q q'
