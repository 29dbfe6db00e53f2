-- ===== src/Report.antt =====
-- Programs that read files under /proc and /sys and print what they find, as
-- labs/process_memory_exercises.c does: a run is the list of what it does, in order. Of the output the
-- model keeps what depends on the run; text that is always the same is left out.
pub mod Files
pub mod Balance
use Prim.Native.String.{String, len, find}
use linux_page_cache_lab.Base.{ℕ, Bool, Option, List, [], ◌∷◌, ◌++◌, leb}

pub data Event : Type 0 where
  -- `fopen` or `open` has given a handle on a path, and `fclose` or `close` has taken it back.
  opens : (path : String) → Event
  closes : (path : String) → Event
  -- `mmap` has given so many bytes, and `munmap` has taken them back.
  maps : (bytes : ℕ) → Event
  unmaps : (bytes : ℕ) → Event
  -- A line of a file, a message, a number.
  line : (text : String) → Event
  says : (text : String) → Event
  shows : (label : String) (value : ℕ) → Event
  forks : Event

-- A run that goes on to its end, one that a signal ends, and one of which the language says nothing after these events,
-- since it reads what was never written.
pub data Run : Type 0 where
  goes : (events : List Event) → Run
  dies : (events : List Event) → Run
  undefined : (events : List Event) → Run

infixr 4 ◌▸◌
abbrev pub ◌▸◌ : Run → Run → Run
goes a ▸ goes b = goes (a ++ b)
goes a ▸ dies b = dies (a ++ b)
goes a ▸ undefined b = undefined (a ++ b)
dies a ▸ b = dies a
undefined a ▸ b = undefined a

-- What the successive calls of `fgets` return, and whether the last line has no newline (then reading
-- it has met the end of the file).
pub record File : Type 0 where
  pub lines : List String
  pub unended : Bool

-- What the system answers. A moment numbers the calls of one kind within an exercise.
pub record Host : Type 0 where
  pub pid : String
  pub ppid : String
  pub file : (moment : ℕ) (path : String) → Option File
  -- The address of a mapping, in hexadecimal.
  pub address : (moment : ℕ) → Option String
  pub opens_exe : Bool
  pub minor : (moment : ℕ) → ℕ
  pub major : (moment : ℕ) → ℕ
  -- The child's number, if `fork` succeeds, and the status with which it exits, if no signal ends it.
  pub child_pid : Option String
  pub exit_status : Option ℕ

-- `strstr`.
abbrev pub contains : String → String → Bool
contains text part = leb (find text part) (len text)
