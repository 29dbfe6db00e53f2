-- ===== src/Exercises/Printed.antt =====
-- What `print_proc_file` and the smaps window of labs/process_memory_exercises.c print of a file.
use Prim.Native.String.{String}
use text.Mathlib.Text.{starts_with}
use linux_page_cache_lab.Base.{
  ℕ, zero, suc, ◌+◌, ◌≡◌, refl, ◌∙◌, sym, ap, arith, Bool, true, false, some, List, [], ◌∷◌, ◌++◌,
  map, length, ltb, if◌then◌else◌,
}
use linux_page_cache_lab.Report.{Event, opens, closes, line, says, File, contains}
use linux_page_cache_lab.Report.Files.{first_lines, cut_lines, print_proc_file, window}

-- The first `n` members.
unfoldable pub take : List String → ℕ → List String
take [] n = []
take (x ∷ xs) zero = []
take (x ∷ xs) (suc n) = x ∷ take xs n

-- The list from its first member that passes the test on, and the list up to that member.
unfoldable pub from : (String → Bool) → List String → List String
from test [] = []
from test (x ∷ xs) = let rest = from test xs in if test x then x ∷ xs else rest

unfoldable pub upto : (String → Bool) → List String → List String
upto test [] = []
upto test (x ∷ xs) = let rest = upto test xs in if test x then x ∷ [] else x ∷ rest

first_lines-take : (ls : List String) (max : ℕ) → first_lines ls max ≡ map line (take ls max)
unfolding take
first_lines-take [] max = refl
first_lines-take (l ∷ ls) zero = refl
first_lines-take (l ∷ ls) (suc max) = ap (λ es. line l ∷ es) (first_lines-take ls max)

-- How many lines a file may have beyond the maximum without being reported as cut.
abbrev pub slack : Bool → ℕ
slack true = 1
slack false = 0

cut_lines_lem :
    (u : Bool) (ls : List String) (max : ℕ) → cut_lines u ls max ≡ ltb (max + slack u) (length ls)
cut_lines_lem u [] max = ground arith
cut_lines_lem true (l ∷ []) zero = refl
cut_lines_lem false (l ∷ []) zero = refl
cut_lines_lem true (l ∷ m ∷ ls) zero = ground arith
cut_lines_lem false (l ∷ m ∷ ls) zero = ground arith
cut_lines_lem u (l ∷ ls) (suc max) = cut_lines_lem u ls max ∙ ground arith

-- `print_proc_file` opens the file, prints its first `max` lines, adds the note on truncation exactly
-- if the file has more than `max` lines (or, where the last line has no newline, more than
-- `max + 1`), and closes the file.
pub print_proc_file_lem :
    (f : File) (path : String) (max : ℕ)
    → print_proc_file (some f) path max
      ≡ opens path
        ∷ ((map line (take f.lines max)
              ++ (if ltb (max + slack f.unended) (length f.lines)
                  then says "  ... (truncated" ∷ []
                  else []))
            ++ (closes path ∷ []))
print_proc_file_lem f path max =
    rw (first_lines-take f.lines max, cut_lines_lem f.unended f.lines max) refl

take_zero : (ls : List String) → take ls 0 ≡ []
unfolding take
take_zero [] = refl
take_zero (l ∷ ls) = refl

-- A test that ends the window, as the lists see it.
last_or_more :
    (b : Bool) (l : String) (ls : List String) (left : ℕ) {es : List Event}
    → es ≡ map line (take ls left)
    → line l ∷ (if b then [] else es) ≡ map line (take (if b then l ∷ [] else l ∷ ls) (suc left))
unfolding take
last_or_more true l ls left e = refl
last_or_more false l ls left e = ap (λ t. line l ∷ t) e

unfoldable pub ends_window : String → Bool
ends_window l = starts_with l "VmFlags"

found_window :
    (target : String) (ls : List String) (left : ℕ)
    → window target ls true left ≡ map line (take (upto ends_window ls) left)
unfolding window take upto ends_window
found_window target [] left = refl
found_window target (l ∷ ls) zero = ap (λ t. map line t) (sym (take_zero _))
found_window target (l ∷ ls) (suc left) =
    last_or_more (starts_with l "VmFlags") l (upto ends_window ls) left
      (found_window target ls left)

start_or_skip :
    (b : Bool) (l : String) (ls : List String) (left : ℕ) {es fs : List Event} (later : List String)
    → es ≡ map line (take (upto ends_window (l ∷ ls)) left)
    → fs ≡ map line (take (upto ends_window later) left)
    → (if b then es else fs) ≡ map line (take (upto ends_window (if b then l ∷ ls else later)) left)
start_or_skip true l ls left later p q = p
start_or_skip false l ls left later p q = q

-- The window of exercise 2 prints the lines from the first that has the target to the first after it
-- that starts with `VmFlags` (both included), cut to `left` lines.
pub window_lem :
    (target : String) (ls : List String) (left : ℕ)
    → window target ls false left
      ≡ map line (take (upto ends_window (from (λ l. contains l target) ls)) left)
unfolding window take upto from
window_lem target [] left = refl
window_lem target (l ∷ ls) zero = ap (λ t. map line t) (sym (take_zero _))
window_lem target (l ∷ ls) (suc left) =
    start_or_skip (contains l target) l ls (suc left) (from (λ m. contains m target) ls)
      (found_window target (l ∷ ls) (suc left)) (window_lem target ls (suc left))
