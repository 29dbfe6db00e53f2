-- ===== src/AddressSpace/Regions.antt =====
-- The line counts of labs/lab_01_threads_addr_fs.c.
use Prim.Native.String.{String}
use linux_page_cache_lab.Base.{
  ℕ, zero, suc, ◌+◌, ◌≡◌, refl, ◌∙◌, ap, arith, Bool, true, false, ◌||◌, List, [], ◌∷◌, length, leb,
}
use linux_page_cache_lab.Report.{contains}
use linux_page_cache_lab.AddressSpace.{
  Counts, no_counts, count_by, count_line, count_regions, count_lines,
}

-- Every line is counted in exactly one class.
abbrev pub IsSplit : Counts → Type 0
IsSplit c = c.total ≡ c.anon + c.file_backed + c.special

count_by_lem :
    (c : Counts) (vdso vvar heap stack file : Bool)
    → IsSplit c
    → let d = count_by (record c { total = c.total + 1 }) vdso vvar heap stack file in
      IsSplit d × (d.total ≡ c.total + 1) × (d.has_vdso ≡ (vdso || c.has_vdso))
count_by_lem c true vvar heap stack file h = (omega (arith, h), refl, refl)
count_by_lem c false true heap stack file h = (omega (arith, h), refl, refl)
count_by_lem c false false true stack file h = (omega (arith, h), refl, refl)
count_by_lem c false false false true file h = (omega (arith, h), refl, refl)
count_by_lem c false false false false true h = (omega (arith, h), refl, refl)
count_by_lem c false false false false false h = (omega (arith, h), refl, refl)

pub any_line : (String → Bool) → List String → Bool
any_line test [] = false
any_line test (l ∷ ls) = test l || any_line test ls

or_shift : (a b c : Bool) → ((a || b) || c) ≡ (b || (a || c))
or_shift true true c = refl
or_shift true false c = refl
or_shift false true c = refl
or_shift false false c = refl

count_regions_from :
    (c : Counts) (ls : List String)
    → IsSplit c
    → let d = count_regions c ls in
      IsSplit d
      × (d.total ≡ c.total + length ls)
      × (d.has_vdso ≡ (c.has_vdso || any_line (λ l. contains l "[vdso]") ls))
unfolding count_regions any_line
count_regions_from c [] h = (h, omega arith, or_false c.has_vdso)
  where
    or_false : (b : Bool) → b ≡ (b || false)
    or_false true = refl
    or_false false = refl
count_regions_from c (l ∷ ls) h =
    let one =
      count_by_lem c (contains l "[vdso]") (contains l "[vvar]") (contains l "[heap]")
        (contains l "[stack]") (contains l "/") h in
    let rest = count_regions_from (count_line c l) ls one.0 in
    (
      rest.0,
      omega (arith, rest.1, one.1),
      rest.2
          ∙ ap (λ b. b || any_line (λ m. contains m "[vdso]") ls) one.2
          ∙ or_shift (contains l "[vdso]") c.has_vdso (any_line (λ m. contains m "[vdso]") ls),
    )

-- The counts of a maps file: as many as it has lines, each in exactly one of the classes anonymous,
-- file-backed and special, and the vdso flag is set exactly if some line names the vdso.
pub count_regions_lem :
    (ls : List String)
    → let c = count_regions no_counts ls in
      (c.total ≡ length ls)
      × (c.total ≡ c.anon + c.file_backed + c.special)
      × (c.has_vdso ≡ any_line (λ l. contains l "[vdso]") ls)
count_regions_lem ls =
    let all = count_regions_from no_counts ls refl in (omega (arith, all.1), all.0, all.2)

-- The note on truncation is printed exactly if the file has `max` lines or more: also where the
-- whole file was printed.
pub count_lines_note :
    (ls : List String) (max : ℕ) → leb max (count_lines ls max) ≡ leb max (length ls)
count_lines_note [] max = refl
count_lines_note (l ∷ ls) zero = ground arith
count_lines_note (l ∷ ls) (suc max) = ground (arith, count_lines_note ls max)
