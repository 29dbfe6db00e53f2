-- ===== src/Processes/PingPong.antt =====
-- labs/lab_15_context_switching.c: the round trips of a byte over two pipes, between a parent and its child in
-- `demo_ctx_switch_cost` and between a thread and `thread_ping` in `demo_thread_switch`, where the loops are the same.
pub mod Turns
use Prim.Native.String.{String}
use linux_page_cache_lab.Base.{
  ℕ, zero, suc, ◌+◌, ◌<◌, ◌≡◌, Bool, true, false, List, [], ◌∷◌, ◌++◌, length,
}
use linux_page_cache_lab.Report.{Event, Host}
use linux_page_cache_lab.Report.Files.{contains_any, lines_with, status_path}

-- A side has finished `done` rounds; `halfway` it has made the first of the two calls of a round.
pub record Side : Type 0 where
  pub done : ℕ
  pub halfway : Bool
  pub c : ℕ

pub record System : Type 0 where
  pub parent : Side
  pub child : Side
  pub p1 : List ℕ
  pub p2 : List ℕ

abbrev pub idle : Side
idle = record { done = 0; halfway = false; c = 0 }

abbrev pub init : System
init = record { parent = idle; child = idle; p1 = []; p2 = [] }

-- `N`.
abbrev pub n_rounds : ℕ
n_rounds = 100000

-- A write waits until the pipe, of `capacity` bytes, has room, and a read until there is a byte.
pub data Step (n capacity : ℕ) (s : System) : System → Type 0 where
  parent_writes :
      s.parent.done < n
      → s.parent.halfway ≡ false
      → length s.p1 < capacity
      → Step n capacity s (record s {
        parent = record (s.parent) { halfway = true };
        p1 = s.p1 ++ (s.parent.c ∷ []);
      })
  parent_reads :
      (byte : ℕ) (rest : List ℕ)
      → s.parent.halfway ≡ true
      → s.p2 ≡ byte ∷ rest
      → Step n capacity s (record s {
        parent = record { done = s.parent.done + 1; halfway = false; c = byte };
        p2 = rest;
      })
  child_reads :
      (byte : ℕ) (rest : List ℕ)
      → s.child.done < n
      → s.child.halfway ≡ false
      → s.p1 ≡ byte ∷ rest
      → Step n capacity s
          (record s { child = record (s.child) { halfway = true; c = byte }; p1 = rest })
  child_writes :
      s.child.halfway ≡ true
      → length s.p2 < capacity
      → Step n capacity s (record s {
        child = record (s.child) { done = s.child.done + 1; halfway = false };
        p2 = s.p2 ++ (s.child.c ∷ []);
      })

-- Where both loops have ended.
abbrev pub Finished : (n : ℕ) → System → Type 0
Finished n s = (s.parent.done ≡ n) × (s.child.done ≡ n) × (s.p1 ≡ []) × (s.p2 ≡ [])

-- `demo_voluntary_stats`.
abbrev pub switch_names : List String
switch_names = "ctxt_switches" ∷ "voluntary" ∷ []

abbrev pub demo_voluntary_stats : Host → List Event
demo_voluntary_stats host = lines_with host 0 (status_path host.pid) (contains_any switch_names) []
