-- ===== src/Processes/Reaping.antt =====
-- labs/lab_14_processes_in_action.c: the children of phase 1 and the parent that waits for them.
pub mod Kept
pub mod Reaped
use Prim.Native.String.{String}
use linux_page_cache_lab.Base.{
  ℕ, zero, suc, ◌+◌, ◌<◌, ◌≡◌, ◌⊎◌, Option, none, some, List, [], ◌∷◌, ◌++◌, update, if◌then◌else◌,
}
use linux_page_cache_lab.Report.{Event, says, shows, forks as process_forks, Host}
use linux_page_cache_lab.Report.Files.{reading, select_lines, starts_with_any, status_path}

pub data Child : Type 0 where
  absent running zombie reaped : Child

-- `forked` and `waited` count the rounds of the two loops; `reapings` are the children that `wait` has returned,
-- in order.
pub record System : Type 0 where
  pub forked : ℕ
  pub waited : ℕ
  pub children : ℕ → Child
  pub reapings : List ℕ

abbrev pub init : System
init = record { forked = 0; waited = 0; children = λ k. absent; reapings = [] }

abbrev pub n_children : ℕ
n_children = 3

abbrev pub IsSettled : (n : ℕ) → (ℕ → Child) → Type 0
IsSettled n children = (k : ℕ) → k < n → (children k ≡ reaped) ⊎ (children k ≡ absent)

-- A child ends whenever it likes, and `wait` returns any child that has ended. If `fork` fails the loop goes
-- on, and if no child is left `wait` fails and the loop goes on.
pub data Step (n : ℕ) (s : System) : System → Type 0 where
  forks :
      s.forked < n
      → Step n s (record s { forked = s.forked + 1; children = update s.children s.forked running })
  fork_fails : s.forked < n → Step n s (record s { forked = s.forked + 1 })
  exits :
      (k : ℕ)
      → k < n
      → s.children k ≡ running
      → Step n s (record s { children = update s.children k zombie })
  reaps :
      (k : ℕ)
      → k < n
      → s.forked ≡ n
      → s.waited < n
      → s.children k ≡ zombie
      → Step n s (record s {
        waited = s.waited + 1;
        children = update s.children k reaped;
        reapings = k ∷ s.reapings;
      })
  wait_fails :
      s.forked ≡ n
      → s.waited < n
      → IsSettled n s.children
      → Step n s (record s { waited = s.waited + 1 })

-- Phase 3: the parent forks a single child, which ends at once, and waits for it.
abbrev pub ZombieStep : System → System → Type 0
ZombieStep = Step 1

-- What phase 3 prints; `z` is the text of what `fork` returned.
abbrev pub zombie_lines : (z : String) → List Event
zombie_lines z = process_forks ∷ says z ∷ says z ∷ says "Reaped zombie." ∷ []

-- `Reaped PID …, exit=…`, if the child has not been ended by a signal.
abbrev pub reaped_line : (pid : String) (status : Option ℕ) → List Event
reaped_line pid none = []
reaped_line pid (some code) = says pid ∷ shows "exit" code ∷ []

-- The fields of phase 4.
abbrev pub status_keys : List String
status_keys =
    "Pid:" ∷ "PPid:" ∷ "VmPeak:" ∷ "VmRSS:" ∷ "VmData:" ∷ "VmStk:" ∷ "Threads:" ∷ "NSpid:" ∷ []

abbrev pub vm_fields : Host → List Event
vm_fields host =
    reading (host.file 0 (status_path host.pid)) (status_path host.pid) []
      (λ f. select_lines (starts_with_any status_keys) f.lines)
