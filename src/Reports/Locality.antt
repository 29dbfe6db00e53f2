-- ===== src/Reports/Locality.antt =====
-- The timed scans of labs/lab_28_page_replace.c, if its mapping succeeds: the pages in order, three times, and as many at random.
-- The results of `rand` are a parameter; the times are not modelled.
use linux_page_cache_lab.Base.{ℕ, zero, suc, ◌+◌, ◌*◌, ◌%◌, ◌<◌, ◌≡◌, ap, ◌∙◌, arith}
use linux_page_cache_lab.Scan.{word, scan, scan_whole, memset, memset_inside}
use linux_page_cache_lab.Reports.Memory.{region}

-- How many pages of 4096 bytes the region has.
abbrev pub n_pages : ℕ
n_pages = 16384

-- `for (int r = 0; r < 3; r++) for (i = 0; i < sz; i += 4096) s += mem[i]`.
unfoldable pub sequential : (mem : ℕ → ℕ) (rounds s : ℕ) → ℕ
sequential mem zero s = s
sequential mem (suc rounds) s = sequential mem rounds (scan 4096 mem (region + 1) 0 region s)

-- Where the access number `i` goes.
abbrev pub random_index : (rand : ℕ → ℕ) (i : ℕ) → ℕ
random_index rand i = rand i % n_pages * 4096

unfoldable pub random : (rand mem : ℕ → ℕ) (left i s : ℕ) → ℕ
random rand mem zero i s = s
random rand mem (suc left) i s =
    random rand mem left (i + 1) ((s + mem (random_index rand i)) % word)

-- The sum `s` after both loops, over a mapping that was `mem` before its `memset`.
unfoldable pub both_sums : (rand mem : ℕ → ℕ) → ℕ
both_sums rand mem =
    let filled = memset mem 0 1 region in random rand filled (n_pages * 3) 0 (sequential filled 3 0)

ones : (mem : ℕ → ℕ) (a : ℕ) → a < region → memset mem 0 1 region a ≡ 1
ones mem a lt = memset_inside mem 0 1 region a (omega arith) (omega arith)

sequential_lem :
    (mem : ℕ → ℕ) (rounds s : ℕ)
    → s + rounds * n_pages < word
    → sequential (memset mem 0 1 region) rounds s ≡ s + rounds * n_pages
unfolding sequential
sequential_lem mem zero s small = omega arith
sequential_lem mem (suc rounds) s small =
    ap (sequential (memset mem 0 1 region) rounds) (
      scan_whole 4096 n_pages 1 region s (memset mem 0 1 region) (omega arith) (omega arith)
        (omega arith) (ones mem))
    ∙ sequential_lem mem rounds (s + 1 * n_pages) (omega arith)
    ∙ (omega arith)

random_index-lt : (rand : ℕ → ℕ) (i : ℕ) → random_index rand i < region
random_index-lt rand i = omega arith

random_lem :
    (rand mem : ℕ → ℕ) (left i s : ℕ)
    → s + left < word
    → random rand (memset mem 0 1 region) left i s ≡ s + left
unfolding random
random_lem rand mem zero i s small = omega arith
random_lem rand mem (suc left) i s small =
    ap (λ v. random rand (memset mem 0 1 region) left (i + 1) ((s + v) % word))
      (ones mem (random_index rand i) (random_index-lt rand i))
    ∙ random_lem rand mem left (i + 1) ((s + 1) % word) (omega arith)
    ∙ (omega arith)

-- Whatever `rand` gives: every random access lies in the mapping, and both loops together read 98304 pages, so that the sum
-- ends at that.
pub scans_in_region :
    (rand mem : ℕ → ℕ) (i : ℕ) → (random_index rand i < region) × (both_sums rand mem ≡ 98304)
unfolding both_sums
scans_in_region rand mem i = (
  random_index-lt rand i,
  ap (random rand (memset mem 0 1 region) (n_pages * 3) 0) (sequential_lem mem 3 0 (omega arith))
      ∙ random_lem rand mem (n_pages * 3) 0 (0 + 3 * n_pages) (omega arith)
      ∙ (omega arith),
)
