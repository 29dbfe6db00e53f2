-- ===== src/Report/Balance/Files.antt =====
-- What a run prints of a file, or does around a file or a mapping, keeps the balance.
use Prim.Native.String.{String}
use linux_page_cache_lab.Base.{
  ℕ, zero, suc, Bool, true, false, Option, none, some, List, [], ◌∷◌, ◌++◌, ◌||◌,
}
use text.Mathlib.Text.{starts_with}
use linux_page_cache_lab.Report.{Event, line, File, Host, contains}
use linux_page_cache_lab.Report.Files.{
  first_lines, all_lines, cut_lines, print_proc_file, find_line, select_lines, print_status_field,
  window, select_up_to, value_shown, first_value, values_in, lines_with, if_opened, maps_if,
  unmaps_if,
}
use linux_page_cache_lab.Report.Balance.{
  IsBalanced, append-IsBalanced, none-IsBalanced, plain-IsBalanced, line-IsPlain, says-IsPlain,
  map-IsBalanced, reading-IsBalanced, if-IsBalanced, say-IsBalanced,
}

pub first_lines-IsBalanced : (ls : List String) (max : ℕ) → IsBalanced (first_lines ls max)
first_lines-IsBalanced [] max = none-IsBalanced
first_lines-IsBalanced (l ∷ ls) zero = none-IsBalanced
first_lines-IsBalanced (l ∷ ls) (suc max) =
    plain-IsBalanced (line-IsPlain l) (first_lines-IsBalanced ls max)

pub all_lines-IsBalanced : (ls : List String) → IsBalanced (all_lines ls)
all_lines-IsBalanced [] = none-IsBalanced
all_lines-IsBalanced (l ∷ ls) = plain-IsBalanced (line-IsPlain l) (all_lines-IsBalanced ls)

pub find_line-IsBalanced :
    (test : String → Bool) (ls : List String) → IsBalanced (find_line test ls)
find_line-IsBalanced test [] = none-IsBalanced
find_line-IsBalanced test (l ∷ ls) =
    if-IsBalanced (test l) (plain-IsBalanced (line-IsPlain l) none-IsBalanced)
      (find_line-IsBalanced test ls)

pub select_lines-IsBalanced :
    (test : String → Bool) (ls : List String) → IsBalanced (select_lines test ls)
select_lines-IsBalanced test [] = none-IsBalanced
select_lines-IsBalanced test (l ∷ ls) =
    let rest = select_lines-IsBalanced test ls in
    if-IsBalanced (test l) (plain-IsBalanced (line-IsPlain l) rest) rest

pub window-IsBalanced :
    (target : String) (ls : List String) (found : Bool) (left : ℕ)
    → IsBalanced (window target ls found left)
unfolding window
window-IsBalanced target [] found left = none-IsBalanced
window-IsBalanced target (l ∷ ls) found zero = none-IsBalanced
window-IsBalanced target (l ∷ ls) found (suc left) =
    if-IsBalanced (found || contains l target)
      (plain-IsBalanced (line-IsPlain l) (
        if-IsBalanced (starts_with l "VmFlags") none-IsBalanced
          (window-IsBalanced target ls true left)))
      (window-IsBalanced target ls false (suc left))

pub print_proc_file-IsBalanced :
    (o : Option File) (path : String) (max : ℕ) → IsBalanced (print_proc_file o path max)
print_proc_file-IsBalanced o path max =
    reading-IsBalanced o path
      (plain-IsBalanced (says-IsPlain _) (plain-IsBalanced (says-IsPlain path) none-IsBalanced))
      (λ f. append-IsBalanced (first_lines-IsBalanced f.lines max) (
        if-IsBalanced (cut_lines f.unended f.lines max)
          (plain-IsBalanced (says-IsPlain _) none-IsBalanced) none-IsBalanced))

pub print_status_field-IsBalanced :
    (host : Host) (moment : ℕ) (field : String) → IsBalanced (print_status_field host moment field)
print_status_field-IsBalanced host moment field =
    reading-IsBalanced (host.file moment _) _ none-IsBalanced
      (λ f. find_line-IsBalanced (λ l. starts_with l field) f.lines)

pub select_up_to-IsBalanced :
    (test : String → Bool) (max : ℕ) (ls : List String) → IsBalanced (select_up_to test max ls)
unfolding select_up_to
select_up_to-IsBalanced test zero ls = none-IsBalanced
select_up_to-IsBalanced test (suc max) [] = none-IsBalanced
select_up_to-IsBalanced test (suc max) (l ∷ ls) =
    elim (test l)
      as (λ b. IsBalanced (elim b [
        | true ↦ line l ∷ select_up_to test max ls
        | false ↦ select_up_to test (suc max) ls
      ])) [
        | true ↦ plain-IsBalanced (line-IsPlain l) (select_up_to-IsBalanced test max ls)
        | false ↦ select_up_to-IsBalanced test (suc max) ls
      ]

pub value_shown-IsBalanced : (label : String) (ls : List String) → IsBalanced (value_shown label ls)
value_shown-IsBalanced label [] = none-IsBalanced
value_shown-IsBalanced label (l ∷ ls) = say-IsBalanced label (say-IsBalanced _ none-IsBalanced)

pub first_value-IsBalanced :
    (host : Host) (moment : ℕ) (path label : String) {missing : List Event}
    → IsBalanced missing
    → IsBalanced (first_value host moment path label missing)
first_value-IsBalanced host moment path label m =
    reading-IsBalanced (host.file moment path) path m (λ f. value_shown-IsBalanced label f.lines)

pub values_in-IsBalanced :
    (host : Host) (moment : ℕ) (directory : String) (names : List String)
    → IsBalanced (values_in host moment directory names)
values_in-IsBalanced host moment directory [] = none-IsBalanced
values_in-IsBalanced host moment directory (name ∷ names) =
    append-IsBalanced (first_value-IsBalanced host moment _ name none-IsBalanced)
      (values_in-IsBalanced host moment directory names)

pub lines_with-IsBalanced :
    (host : Host) (moment : ℕ) (path : String) (test : String → Bool) {missing : List Event}
    → IsBalanced missing
    → IsBalanced (lines_with host moment path test missing)
lines_with-IsBalanced host moment path test m =
    reading-IsBalanced (host.file moment path) path m (λ f. select_lines-IsBalanced test f.lines)

pub if_opened-IsBalanced :
    (o : Option File) {es : List Event} → IsBalanced es → IsBalanced (if_opened o es)
if_opened-IsBalanced none p = none-IsBalanced
if_opened-IsBalanced (some f) p = p

-- What is done between the two.
pub maps_if-IsBalanced :
    (o : Option ℕ) (size : ℕ) {es : List Event}
    → IsBalanced es
    → IsBalanced (maps_if o size ++ (es ++ unmaps_if o size))
maps_if-IsBalanced none size p = append-IsBalanced p none-IsBalanced
maps_if-IsBalanced (some address) size p = map-IsBalanced size p
