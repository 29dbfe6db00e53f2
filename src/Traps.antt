-- ===== src/Traps.antt =====
-- labs/lab_05_segmentation_traps.c (Segv, Caught, Stale) and labs/lab_06_trap_handlers.c (Signals, Recovered): handlers that
-- print a fault and jump back by `siglongjmp`. Which accesses fault is the machine's answer.
pub mod Segv
pub mod Signals
pub mod Caught
pub mod Stale
pub mod Recovered
use Prim.Native.String.{String}
use linux_page_cache_lab.Base.{ℕ, ◌+◌, Option, none, some, List, ◌∷◌, [], ◌++◌, ◌==◌, if◌then◌else◌}
use linux_page_cache_lab.Report.{Event}

-- What a handler is told of a fault: `sig`, `si_code`, `si_addr`, and the registers RIP and RSP.
pub record Fault : Type 0 where
  pub sig : ℕ
  pub si_code : ℕ
  pub si_addr : ℕ
  pub rip : ℕ
  pub rsp : ℕ

-- `jump` is the function whose call of `sigsetjmp` has filled the jump buffer, named by its phase. Lab 06 has no
-- `fault_count` and leaves it at 0.
pub record State : Type 0 where
  pub jump : Option ℕ
  pub fault_count : ℕ
  pub events : List Event

abbrev pub start : State
start = record { jump = none; fault_count = 0; events = [] }

-- A function returns, or a jump goes to a function that has already returned (or to no function).
pub data Flow : Type 0 where
  returns : State → Flow
  undefined : State → Flow

abbrev pub then_call : Flow → (State → Flow) → Flow
then_call (returns s) f = f s
then_call (undefined s) f = undefined s

abbrev pub say : List Event → State → State
say es s = record s { events = s.events ++ es }

-- `sigsetjmp` returns 0 here.
abbrev pub sigsetjmp : (frame : ℕ) → State → State
sigsetjmp frame s = record s { jump = some frame }

-- The jump ends in the running function only if that has filled the buffer; `sigsetjmp` then returns `value`.
abbrev pub siglongjmp : (frame value : ℕ) → (recover : ℕ → State → Flow) → State → Flow
siglongjmp frame value recover s = elim s.jump [
  | none ↦ undefined s
  | some set_by ↦ if set_by == frame then recover value s else undefined s
]

-- An instruction of the function `frame` that may fault: then the handler runs, and jumps with the value
-- that `jumps_with` gives.
abbrev pub instruction :
    (handler : Fault → State → State)
    → (jumps_with : Fault → ℕ) → (frame : ℕ) → Option Fault
    → (recover : ℕ → State → Flow) → (go_on : State → Flow) → State
    → Flow
instruction handler jumps_with frame fault recover go_on s = elim fault [
  | none ↦ go_on s
  | some f ↦ siglongjmp frame (jumps_with f) recover (handler f s)
]
