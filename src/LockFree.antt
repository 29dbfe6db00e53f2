-- ===== src/LockFree.antt =====
-- labs/lab_24_lockfree.c: the stack of `push` and `pop` over a heap of nodes, with compare-and-swap on
-- `stack_top`. In `main` the threads only push, and the pops follow in one thread; with `may_pop` a thread
-- may also pop, as the functions allow.
pub mod Chain
pub mod Pushed
pub mod PopAll
pub mod Complete
pub mod Alone
pub mod Aba
use linux_page_cache_lab.Base.{
  ℕ, zero, suc, ◌+◌, ◌<◌, ◌≡◌, Bool, true, Option, none, some, List, [], ◌∷◌, update,
}

-- `node_t`; pointers are numbers, and `none` is NULL.
pub record Node : Type 0 where
  pub val : ℕ
  pub next : Option ℕ

-- The nodes that `malloc` has given and `free` has not taken back.
abbrev pub Heap : Type 0
Heap = ℕ → Option Node

-- Where a thread stands with `done` operations behind it: between two of them; in `push` with its
-- node `n` before the load of the top, or linked to `old` before the swap; in `pop` with `old` loaded,
-- with `old->next` read, or after the swap, before `free`.
pub data Pc : Type 0 where
  idle : (done : ℕ) → Pc
  allocated : (done n : ℕ) → Pc
  linked : (done n : ℕ) (old : Option ℕ) → Pc
  seen : (done old : ℕ) → Pc
  next_read : (done old : ℕ) (next : Option ℕ) → Pc
  swapped : (done old : ℕ) → Pc

pub record System : Type 0 where
  pub heap : Heap
  pub top : Option ℕ
  pub pc : ℕ → Pc

abbrev pub init : System
init = record { heap = λ a. none; top = none; pc = λ t. idle 0 }

-- How many values each pusher pushes: operation `i` pushes `i`.
abbrev pub n_items : ℕ
n_items = 100000

-- What `main` has waited for when it has joined the T threads.
abbrev pub Joined : (T items : ℕ) → System → Type 0
Joined T items s = (t : ℕ) → t < T → s.pc t ≡ idle items

module _ (T items : ℕ) (may_pop : Bool) where
  -- A weak compare-and-swap may fail at any time; it succeeds only if the top is what was loaded.
  pub data Step (s : System) : System → Type 0 where
    alloc :
        (t i n : ℕ)
        → t < T
        → i < items
        → s.pc t ≡ idle i
        → s.heap n ≡ none
        → Step s (record s {
          heap = update s.heap n (some (record { val = i; next = none }));
          pc = update s.pc t (allocated i n);
        })
    link :
        (t i n : ℕ)
        → t < T
        → s.pc t ≡ allocated i n
        → Step s (record s {
          heap = update s.heap n (some (record { val = i; next = s.top }));
          pc = update s.pc t (linked i n s.top);
        })
    push_swaps :
        (t i n : ℕ) (old : Option ℕ)
        → t < T
        → s.pc t ≡ linked i n old
        → s.top ≡ old
        → Step s (record s { top = some n; pc = update s.pc t (idle (i + 1)) })
    push_retries :
        (t i n : ℕ) (old : Option ℕ)
        → t < T
        → s.pc t ≡ linked i n old
        → Step s (record s { pc = update s.pc t (allocated i n) })
    load_top :
        (t i old : ℕ)
        → may_pop ≡ true
        → t < T
        → i < items
        → s.pc t ≡ idle i
        → s.top ≡ some old
        → Step s (record s { pc = update s.pc t (seen i old) })
    load_empty :
        (t i : ℕ)
        → may_pop ≡ true
        → t < T
        → i < items
        → s.pc t ≡ idle i
        → s.top ≡ none
        → Step s (record s { pc = update s.pc t (idle (i + 1)) })
    read_next :
        (t i old : ℕ) (node : Node)
        → t < T
        → s.pc t ≡ seen i old
        → s.heap old ≡ some node
        → Step s (record s { pc = update s.pc t (next_read i old node.next) })
    pop_swaps :
        (t i old : ℕ) (next : Option ℕ)
        → t < T
        → s.pc t ≡ next_read i old next
        → s.top ≡ some old
        → Step s (record s { top = next; pc = update s.pc t (swapped i old) })
    pop_retries :
        (t i old new : ℕ) (next : Option ℕ)
        → t < T
        → s.pc t ≡ next_read i old next
        → s.top ≡ some new
        → Step s (record s { pc = update s.pc t (seen i new) })
    pop_finds_empty :
        (t i old : ℕ) (next : Option ℕ)
        → t < T
        → s.pc t ≡ next_read i old next
        → s.top ≡ none
        → Step s (record s { pc = update s.pc t (idle (i + 1)) })
    frees :
        (t i old : ℕ)
        → t < T
        → s.pc t ≡ swapped i old
        → Step s (record s { heap = update s.heap old none; pc = update s.pc t (idle (i + 1)) })

abbrev pub done_of : Pc → ℕ
done_of (idle done) = done
done_of (allocated done n) = done
done_of (linked done n old) = done
done_of (seen done old) = done
done_of (next_read done old next) = done
done_of (swapped done old) = done

-- What `pop` comes to in `main`, where no other thread runs: a fault, the result 0, or a value.
pub data Popped : Type 0 where
  fault : Popped
  empty : Popped
  popped : (val : ℕ) → Heap → (top : Option ℕ) → Popped

unfoldable pub pop : Heap → (top : Option ℕ) → Popped
pop h none = empty
pop h (some old) = elim (h old) [
  | none ↦ fault
  | some node ↦ popped node.val (update h old none) node.next
]

-- `while (pop(&val)) count++`: the popped values, in order; `none` is a fault or no more fuel.
unfoldable pub pop_all : (fuel : ℕ) → Heap → (top : Option ℕ) → Option (List ℕ)
pop_all zero h top = none
pop_all (suc fuel) h top = elim (pop h top) [
  | fault ↦ none
  | empty ↦ some []
  | popped val h' top' ↦ elim (pop_all fuel h' top') [ none ↦ none | some vs ↦ some (val ∷ vs) ]
]
