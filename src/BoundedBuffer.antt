-- ===== src/BoundedBuffer.antt =====
-- labs/lab_22_condvar.c: a producer of 20 items and `N` consumers (two in `main`) over a buffer of 8,
-- with a mutex and two condition variables. A critical section runs under `mtx`, so it is one step;
-- `pthread_cond_wait` releases the mutex and sleeps, and a woken thread takes it again and repeats
-- its test. A signal wakes a sleeper if there is one, and any sleeper may wake spuriously.
pub mod Ring
pub mod Invariant
pub mod Progress
pub mod Refine
pub mod Complete
use linux_page_cache_lab.Base.{
  ℕ, zero, suc, ◌+◌, ◌-◌, ◌%◌, ◌<◌, ◌≡◌, ◌≢◌, Bool, true, false, not, ◌&&◌, Option, none, some,
  List, [], ◌∷◌, ◌++◌, ◌==◌, if◌then◌else◌, get_or, set, replicate, update,
}

-- `BUFSIZE`.
abbrev pub buf_size : ℕ
buf_size = 8

-- How many items the producer makes.
abbrev pub n_items : ℕ
n_items = 20

-- The shared variables.
pub record Monitor : Type 0 where
  pub buffer : List ℕ
  pub count : ℕ
  pub in_idx : ℕ
  pub out_idx : ℕ
  pub done : Bool

-- `produce` after it has the mutex; `none` means that it waits on `not_full`.
unfoldable pub produce : Monitor → ℕ → Option Monitor
produce m val =
    if m.count == buf_size
    then none
    else some (record m {
      buffer = set m.buffer m.in_idx val;
      in_idx = (m.in_idx + 1) % buf_size;
      count = m.count + 1;
    })

-- What `consume` comes to after it has the mutex: a wait on `not_empty`, the result -1, or an item.
pub data Consumed : Type 0 where
  waits : Consumed
  closed : Consumed
  got : (val : ℕ) → Monitor → Consumed

unfoldable pub consume : Monitor → Consumed
consume m =
    if m.count == 0 && not m.done
    then waits
    else if m.count == 0 && m.done
    then closed
    else got (get_or m.buffer m.out_idx 0)
        (record m { out_idx = (m.out_idx + 1) % buf_size; count = m.count - 1 })

-- Where the producer stands: about to produce item `i`, asleep on `not_full`, or returned.
pub data Producer : Type 0 where
  producing : (i : ℕ) → Producer
  blocked : (i : ℕ) → Producer
  returned : Producer

-- Where a consumer stands: about to consume, asleep on `not_empty`, or returned.
pub data Consumer : Type 0 where
  consuming sleeping ended : Consumer

-- `log` is what the consumers print, in order.
pub record System : Type 0 where
  pub m : Monitor
  pub p : Producer
  pub cs : ℕ → Consumer
  pub log : List ℕ

abbrev pub init : System
init = record {
  m = record { buffer = replicate 8 0; count = 0; in_idx = 0; out_idx = 0; done = false };
  p = producing 0;
  cs = λ _. consuming;
  log = [];
}

-- `pthread_cond_signal(&not_full)`: the producer is the one thread that waits there.
abbrev pub wake : Producer → Producer
wake (producing i) = producing i
wake (blocked i) = producing i
wake returned = returned

abbrev pub rouse : Consumer → Consumer
rouse consuming = consuming
rouse sleeping = consuming
rouse ended = ended

module _ (N : ℕ) where
  -- `pthread_cond_signal(&not_empty)`.
  pub data Signal (cs : ℕ → Consumer) : (ℕ → Consumer) → Type 0 where
    nobody : ((k : ℕ) → k < N → cs k ≢ sleeping) → Signal cs cs
    one : (k : ℕ) → k < N → cs k ≡ sleeping → Signal cs (update cs k consuming)

  -- A critical section of one thread.
  pub data Act (s : System) : System → Type 0 where
    produce_waits :
        (i : ℕ)
        → s.p ≡ producing i
        → i < n_items
        → produce s.m i ≡ none
        → Act s (record s { p = blocked i })
    produces :
        (i : ℕ) {m : Monitor} {cs : ℕ → Consumer}
        → s.p ≡ producing i
        → i < n_items
        → produce s.m i ≡ some m
        → Signal s.cs cs
        → Act s (record s { m = m; p = producing (i + 1); cs = cs })
    finishes :
        s.p ≡ producing n_items
        → Act s
            (record s { m = record (s.m) { done = true }; p = returned; cs = λ k. rouse (s.cs k) })
    consume_waits :
        (k : ℕ)
        → k < N
        → s.cs k ≡ consuming
        → consume s.m ≡ waits
        → Act s (record s { cs = update s.cs k sleeping })
    consume_ends :
        (k : ℕ)
        → k < N
        → s.cs k ≡ consuming
        → consume s.m ≡ closed
        → Act s (record s { cs = update s.cs k ended })
    consumes :
        (k val : ℕ) {m : Monitor}
        → k < N
        → s.cs k ≡ consuming
        → consume s.m ≡ got val m
        → Act s (record s { m = m; p = wake s.p; log = s.log ++ (val ∷ []) })

  pub data Step (s : System) : System → Type 0 where
    act : {t : System} → Act s t → Step s t
    spurious_producer : Step s (record s { p = wake s.p })
    spurious_consumer : (k : ℕ) → Step s (record s { cs = update s.cs k (rouse (s.cs k)) })
