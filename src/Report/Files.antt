-- ===== src/Report/Files.antt =====
-- The loops over the lines of a file in labs/process_memory_exercises.c and in the numbered labs.
use Prim.Native.String.{String, slice, find, ◌++◌ as joined}
use linux_page_cache_lab.Base.{
  ℕ, zero, suc, Bool, true, false, not, ◌||◌, Option, none, some, List, [], ◌∷◌, ◌++◌,
  if◌then◌else◌, leb, ◌+◌, ◌-◌,
}
use linux_page_cache_lab.Report.{
  Event, opens, closes, maps, unmaps, line, says, shows, Run, goes, ◌▸◌, File, Host, contains,
}
use text.Mathlib.Text.{starts_with}

-- `FILE *f = fopen(path, "r")`, the code for a failure, or the code for the file and `fclose(f)`.
abbrev pub reading : Option File → String → List Event → (File → List Event) → List Event
reading none path missing body = missing
reading (some f) path missing body = opens path ∷ (body f ++ (closes path ∷ []))

-- The same, where the code for the file may not come to its end, and there is none for a failure.
abbrev pub reading_run : Option File → String → (File → Run) → Run
reading_run none path body = goes []
reading_run (some f) path body = goes (opens path ∷ []) ▸ (body f ▸ goes (closes path ∷ []))

-- `while (fgets(line, sizeof line, f) && n < max)`.
abbrev pub first_lines : List String → (max : ℕ) → List Event
first_lines [] max = []
first_lines (l ∷ ls) zero = []
first_lines (l ∷ ls) (suc max) = line l ∷ first_lines ls max

-- `while (fgets(line, sizeof line, f))`.
abbrev pub all_lines : List String → List Event
all_lines [] = []
all_lines (l ∷ ls) = line l ∷ all_lines ls

-- `!feof(f)` after that loop.
abbrev pub cut_lines : (unended : Bool) → List String → (max : ℕ) → Bool
cut_lines unended [] max = false
cut_lines unended (l ∷ []) zero = not unended
cut_lines unended (l ∷ m ∷ ls) zero = true
cut_lines unended (l ∷ ls) (suc max) = cut_lines unended ls max

abbrev pub print_proc_file : Option File → String → (max : ℕ) → List Event
print_proc_file file path max = reading file path (says "  [cannot open" ∷ says path ∷ []) (λ f.
    first_lines f.lines max
    ++ (if cut_lines f.unended f.lines max then says "  ... (truncated" ∷ [] else []))

-- The first line that passes the test: the loop prints it and breaks.
abbrev pub find_line : (String → Bool) → List String → List Event
find_line test [] = []
find_line test (l ∷ ls) = let rest = find_line test ls in if test l then line l ∷ [] else rest

-- Every line that passes the test.
abbrev pub select_lines : (String → Bool) → List String → List Event
select_lines test [] = []
select_lines test (l ∷ ls) =
    let rest = select_lines test ls in if test l then line l ∷ rest else rest

-- The loop over a table that breaks at the first field with which the line starts.
abbrev pub starts_with_any : List String → String → Bool
starts_with_any [] l = false
starts_with_any (field ∷ fields) l = starts_with l field || starts_with_any fields l

abbrev pub status_path : String → String
status_path pid = joined "/proc/" (joined pid "/status")

abbrev pub print_status_field : Host → (moment : ℕ) → String → List Event
print_status_field host moment field =
    reading (host.file moment (status_path host.pid)) (status_path host.pid) []
      (λ f. find_line (λ l. starts_with l field) f.lines)

-- The loop of exercise 2: from the first line with the target on, at most `left` lines, and none after
-- a line that starts with `VmFlags`.
unfoldable pub window : (target : String) → List String → (found : Bool) → (left : ℕ) → List Event
window target [] found left = []
window target (l ∷ ls) found zero = []
window target (l ∷ ls) found (suc left) =
    let more = window target ls true left in
    let later = window target ls false (suc left) in
    if found || contains l target
    then line l ∷ (if starts_with l "VmFlags" then [] else more)
    else later

-- `strstr` with each of a list.
abbrev pub contains_any : List String → String → Bool
contains_any [] l = false
contains_any (part ∷ parts) l = contains l part || contains_any parts l

-- The lines that pass the test, `max` of them at most.
unfoldable pub select_up_to : (String → Bool) → (max : ℕ) → List String → List Event
select_up_to test zero ls = []
select_up_to test (suc max) [] = []
select_up_to test (suc max) (l ∷ ls) = elim (test l) [
  | true ↦ line l ∷ select_up_to test max ls
  | false ↦ select_up_to test (suc max) ls
]

-- A line up to its newline, as `val[strcspn(val, "\n")] = 0` cuts it.
abbrev pub cut : String → String
cut l = slice l 0 (find l "\n")

-- `if (fgets(val, sizeof val, f))` and a line with the value.
abbrev pub value_shown : (label : String) → List String → List Event
value_shown label [] = []
value_shown label (l ∷ ls) = says label ∷ says (cut l) ∷ []

-- The first line of a file, if it can be opened.
abbrev pub first_value :
    Host → (moment : ℕ) → (path label : String) → (missing : List Event) → List Event
first_value host moment path label missing =
    reading (host.file moment path) path missing (λ f. value_shown label f.lines)

-- The same for each of a list of files, in a directory; a file that cannot be opened is passed over.
abbrev pub values_in :
    Host → (moment : ℕ) → (directory : String) → (names : List String) → List Event
values_in host moment directory [] = []
values_in host moment directory (name ∷ names) =
    first_value host moment (joined directory name) name [] ++ values_in host moment directory names

-- A file of which every line that passes the test is printed.
abbrev pub lines_with :
    Host → (moment : ℕ) → (path : String) → (String → Bool) → (missing : List Event) → List Event
lines_with host moment path test missing =
    reading (host.file moment path) path missing (λ f. select_lines test f.lines)

-- What is done only if a file has opened.
abbrev pub if_opened : Option File → List Event → List Event
if_opened none events = []
if_opened (some f) events = events

-- `if (access(path, F_OK) == 0)` and the like: a line for each answer, the empty list for none.
abbrev pub answer : Bool → (yes_text no_text : String) → List Event
answer b yes_text no_text = says (if b then yes_text else no_text) ∷ []

abbrev pub take_lines : ℕ → List String → List String
take_lines zero ls = []
take_lines (suc n) [] = []
take_lines (suc n) (l ∷ ls) = l ∷ take_lines n ls

-- `mmap`, whose result is looked at only later or never; `munmap` of what has not been mapped does nothing.
abbrev pub maps_if : Option ℕ → (size : ℕ) → List Event
maps_if none size = []
maps_if (some address) size = maps size ∷ []

abbrev pub unmaps_if : Option ℕ → (size : ℕ) → List Event
unmaps_if none size = []
unmaps_if (some address) size = unmaps size ∷ []

-- The difference of two numbers, with its sign.
abbrev pub difference : (label : String) (a b : ℕ) → List Event
difference label a b = says (if leb b a then "" else "-") ∷ shows label (a - b + (b - a)) ∷ []
