-- ===== src/Report/Balance.antt =====
-- A run takes back what it has given out: handles are counted by their paths, mappings by their sizes, and bytes.
pub mod Files
use Prim.Native.String.{String}
use linux_page_cache_lab.Base.{
  ℕ, zero, suc, ◌+◌, ◌≡◌, refl, arith, Bool, true, false, Option, none, some, List, [], ◌∷◌, ◌++◌,
  if◌then◌else◌, ◌==◌, ◌||◌,
}
use text.Mathlib.Text.{◌==◌ as str_eq}
use linux_page_cache_lab.Report.{
  Event, opens, closes, maps, unmaps, line, says, shows, forks, Run, goes, ◌▸◌, File, Host,
  contains,
}
use linux_page_cache_lab.Report.Files.{
  reading_run, reading, first_lines, all_lines, cut_lines, print_proc_file, find_line, select_lines,
  print_status_field, window, select_up_to, value_shown, first_value, values_in, lines_with,
  if_opened, maps_if, unmaps_if,
}

pub data Resource : Type 0 where
  handles : (path : String) → Resource
  mappings : (size : ℕ) → Resource
  bytes : Resource

unfoldable pub gain : Resource → Event → ℕ
gain (handles path) (opens p) = if str_eq path p then 1 else 0
gain (mappings size) (maps n) = if size == n then 1 else 0
gain bytes (maps n) = n
gain r e = 0

unfoldable pub loss : Resource → Event → ℕ
loss (handles path) (closes p) = if str_eq path p then 1 else 0
loss (mappings size) (unmaps n) = if size == n then 1 else 0
loss bytes (unmaps n) = n
loss r e = 0

unfoldable pub tally : (Event → ℕ) → List Event → ℕ
tally w [] = 0
tally w (e ∷ es) = w e + tally w es

pub record IsBalanced (es : List Event) : Type 0 where
  pub each : (r : Resource) → tally (gain r) es ≡ tally (loss r) es

pub tally-append :
    (w : Event → ℕ) (xs ys : List Event) → tally w (xs ++ ys) ≡ tally w xs + tally w ys
unfolding tally
tally-append w [] ys = omega arith
tally-append w (x ∷ xs) ys = omega (arith, tally-append w xs ys)

pub append-IsBalanced : {xs ys : List Event} → IsBalanced xs → IsBalanced ys → IsBalanced (xs ++ ys)
append-IsBalanced {xs} {ys} p q = record {
  each = λ r.
      omega (arith, tally-append (gain r) xs ys, tally-append (loss r) xs ys, p.each r, q.each r);
}

pub none-IsBalanced : IsBalanced []
unfolding tally
none-IsBalanced = record { each = λ r. refl }

-- An event that only prints keeps the balance.
pub record IsPlain (e : Event) : Type 0 where
  pub each : (r : Resource) → gain r e ≡ loss r e

plain :
    {e : Event}
    → ((path : String) → gain (handles path) e ≡ loss (handles path) e)
    → ((size : ℕ) → gain (mappings size) e ≡ loss (mappings size) e)
    → gain bytes e ≡ loss bytes e
    → IsPlain e
plain {e} p s q = record {
  each = λ r. elim r as (λ k. gain k e ≡ loss k e) [
    | handles path ↦ p path
    | mappings size ↦ s size
    | bytes ↦ q
  ];
}

pub balanced :
    {es : List Event}
    → ((path : String) → tally (gain (handles path)) es ≡ tally (loss (handles path)) es)
    → ((size : ℕ) → tally (gain (mappings size)) es ≡ tally (loss (mappings size)) es)
    → tally (gain bytes) es ≡ tally (loss bytes) es
    → IsBalanced es
balanced {es} p s q = record {
  each = λ r. elim r as (λ k. tally (gain k) es ≡ tally (loss k) es) [
    | handles path ↦ p path
    | mappings size ↦ s size
    | bytes ↦ q
  ];
}

pub plain-IsBalanced :
    {e : Event} {es : List Event} → IsPlain e → IsBalanced es → IsBalanced (e ∷ es)
unfolding tally
plain-IsBalanced p q = record { each = λ r. omega (arith, p.each r, q.each r) }

pub line-IsPlain : (l : String) → IsPlain (line l)
unfolding gain loss
line-IsPlain l = plain (λ p. refl) (λ n. refl) refl

pub says-IsPlain : (l : String) → IsPlain (says l)
unfolding gain loss
says-IsPlain l = plain (λ p. refl) (λ n. refl) refl

pub shows-IsPlain : (l : String) (n : ℕ) → IsPlain (shows l n)
unfolding gain loss
shows-IsPlain l n = plain (λ p. refl) (λ n. refl) refl

pub forks-IsPlain : IsPlain forks
unfolding gain loss
forks-IsPlain = plain (λ p. refl) (λ n. refl) refl

-- What is done between an `fopen` and its `fclose`, and between an `mmap` and its `munmap`.
pub open-IsBalanced :
    {es : List Event} (path : String)
    → IsBalanced es
    → IsBalanced (opens path ∷ (es ++ (closes path ∷ [])))
unfolding gain loss tally
open-IsBalanced {es} path p =
    balanced
      (λ h. omega (
        arith,
        tally-append (gain (handles h)) es (closes path ∷ []),
        tally-append (loss (handles h)) es (closes path ∷ []),
        p.each (handles h),
      ))
      (λ k. omega (
        arith,
        tally-append (gain (mappings k)) es (closes path ∷ []),
        tally-append (loss (mappings k)) es (closes path ∷ []),
        p.each (mappings k),
      ))
      (omega (
        arith,
        tally-append (gain bytes) es (closes path ∷ []),
        tally-append (loss bytes) es (closes path ∷ []),
        p.each bytes,
      ))

pub map-IsBalanced :
    {es : List Event} (n : ℕ) → IsBalanced es → IsBalanced (maps n ∷ (es ++ (unmaps n ∷ [])))
unfolding gain loss tally
map-IsBalanced {es} n p =
    balanced
      (λ h. omega (
        arith,
        tally-append (gain (handles h)) es (unmaps n ∷ []),
        tally-append (loss (handles h)) es (unmaps n ∷ []),
        p.each (handles h),
      ))
      (λ k. omega (
        arith,
        tally-append (gain (mappings k)) es (unmaps n ∷ []),
        tally-append (loss (mappings k)) es (unmaps n ∷ []),
        p.each (mappings k),
      ))
      (omega (
        arith,
        tally-append (gain bytes) es (unmaps n ∷ []),
        tally-append (loss bytes) es (unmaps n ∷ []),
        p.each bytes,
      ))

pub reading-IsBalanced :
    (o : Option File) (path : String) {missing : List Event} {body : File → List Event}
    → IsBalanced missing
    → ((f : File) → IsBalanced (body f))
    → IsBalanced (reading o path missing body)
reading-IsBalanced none path m b = m
reading-IsBalanced (some f) path m b = open-IsBalanced path (b f)

pub if-IsBalanced :
    (b : Bool) {xs ys : List Event}
    → IsBalanced xs
    → IsBalanced ys
    → IsBalanced (if b then xs else ys)
if-IsBalanced true p q = p
if-IsBalanced false p q = q

-- A run that goes on to its end and takes back what it has given out.
pub record IsClean (run : Run) : Type 0 where
  pub events : List Event
  pub goes_on : run ≡ goes events
  pub balance : IsBalanced events

pub goes-IsClean : {es : List Event} → IsBalanced es → IsClean (goes es)
goes-IsClean {es} p = record { events = es; goes_on = refl; balance = p }

pub reading_run-IsClean :
    (o : Option File) (path : String) {body : File → Run}
    → ((f : File) → o ≡ some f → IsClean (body f))
    → IsClean (reading_run o path body)
reading_run-IsClean none path b = goes-IsClean none-IsBalanced
reading_run-IsClean (some f) path b =
    let inner = b f refl in
    record {
      events = opens path ∷ (inner.events ++ (closes path ∷ []));
      goes_on = rw (inner.goes_on) refl;
      balance = open-IsBalanced path inner.balance;
    }

pub then-IsClean : {a b : Run} → IsClean a → IsClean b → IsClean (a ▸ b)
then-IsClean p q = record {
  events = p.events ++ q.events;
  goes_on = rw (p.goes_on, q.goes_on) refl;
  balance = append-IsBalanced p.balance q.balance;
}

pub say-IsBalanced : (text : String) {es : List Event} → IsBalanced es → IsBalanced (says text ∷ es)
say-IsBalanced text p = plain-IsBalanced (says-IsPlain text) p

pub show-IsBalanced :
    (label : String) (n : ℕ) {es : List Event} → IsBalanced es → IsBalanced (shows label n ∷ es)
show-IsBalanced label n p = plain-IsBalanced (shows-IsPlain label n) p
