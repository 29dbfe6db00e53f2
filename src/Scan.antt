-- ===== src/Scan.antt =====
-- The loop `for (i = 0; i < n; i += step) sum += mem[i]` of labs/demand_paging.c and of
-- labs/process_memory_exercises.c, on a 64-bit sum. The fuel bounds the number of rounds.
use linux_page_cache_lab.Base.{
  ◌&&◌, leb, if◌then◌else◌, ℕ, zero, suc, ◌+◌, ◌-◌, ◌*◌, ◌^◌, ◌%◌, ◌≤◌, ◌<◌, ◌≡◌, arith, refl, ◌∙◌,
  ap, true, false, ltb,
}

abbrev pub word : ℕ
word = 2 ^ 64

module _ (step : ℕ) (mem : ℕ → ℕ) where
  unfoldable pub scan : (fuel i n sum : ℕ) → ℕ
  scan zero i n sum = sum
  scan (suc fuel) i n sum = elim (ltb i n) [
    | true ↦ scan fuel (i + step) n ((sum + mem i) % word)
    | false ↦ sum
  ]

  add_once : (sum v k : ℕ) → ((sum + v) % word + v * k) % word ≡ (sum + v * suc k) % word
  add_once sum v k = grind arith

  scan_once :
      (fuel i n sum : ℕ)
      → i < n
      → scan (suc fuel) i n sum ≡ scan fuel (i + step) n ((sum + mem i) % word)
  unfolding scan
  scan_once fuel i n sum more = ground arith

  -- Over `k` steps on which the memory holds `v` at the places visited, the sum grows by `v * k`, and the
  -- scan goes on from there.
  pub scan_const :
      (k v fuel i n sum : ℕ)
      → sum < word
      → 0 < step
      → i + step * k ≤ n
      → ((j : ℕ) → j < k → mem (i + step * j) ≡ v)
      → scan (k + fuel) i n sum ≡ scan fuel (i + step * k) n ((sum + v * k) % word)
  unfolding scan
  scan_const zero v fuel i n sum small wide inside same = ground arith
  scan_const (suc k) v fuel i n sum small wide inside same =
      let first : mem i ≡ v = ap mem (omega arith) ∙ same 0 (omega arith) in
      let room : i + step + step * k ≤ n = grind arith in
      let more : i < n = omega arith in
      let later : (j : ℕ) → j < k → mem (i + step + step * j) ≡ v =
        λ j lt. ap mem (shift j) ∙ same (suc j) (omega arith) in
      let ih = scan_const k v fuel (i + step) n ((sum + v) % word) (omega arith) wide room later in
      ap (λ f. scan f i n sum) {y = suc (k + fuel)} (omega arith)
      ∙ scan_once (k + fuel) i n sum more
      ∙ ap (λ b. scan (k + fuel) (i + step) n ((sum + b) % word)) first
      ∙ ih
      ∙ ap (λ j. scan fuel j n (((sum + v) % word + v * k) % word)) (end_at)
      ∙ ap (λ r. scan fuel (i + step * suc k) n r) (add_once sum v k)
    where
      shift : (j : ℕ) → i + step + step * j ≡ i + step * suc j
      shift j = grind arith

      end_at : i + step + step * k ≡ i + step * suc k
      end_at = grind arith

  -- A scan that has passed its end returns its sum.
  pub scan_end : (fuel i n sum : ℕ) → n ≤ i → scan fuel i n sum ≡ sum
  unfolding scan
  scan_end zero i n sum past = refl
  scan_end (suc fuel) i n sum past = ground arith

-- A scan of `k` steps that make up all `n` bytes adds `v` for each step where the memory holds `v` throughout.
pub scan_whole :
    (step k v n sum : ℕ) (mem : ℕ → ℕ)
    → 0 < step
    → step * k ≡ n
    → sum + v * k < word
    → ((a : ℕ) → a < n → mem a ≡ v)
    → scan step mem (n + 1) 0 n sum ≡ sum + v * k
scan_whole step k v n sum mem wide whole small same =
    ap (λ f. scan step mem f 0 n sum) {x = n + 1} {y = k + (n + 1 - k)} (grind arith)
    ∙ scan_const step mem k v (n + 1 - k) 0 n sum (omega arith) wide (omega (arith, whole))
        (λ j lt. same (0 + step * j) (grind arith))
    ∙ scan_end step mem (n + 1 - k) (0 + step * k) n ((sum + v * k) % word) (omega (arith, whole))
    ∙ (omega arith)

-- `memset(mem + offset, value, len)`, on the bytes of a mapping.
unfoldable pub memset : (mem : ℕ → ℕ) (offset value len : ℕ) → ℕ → ℕ
memset mem offset value len a = if leb offset a && ltb a (offset + len) then value % 256 else mem a

pub memset_inside :
    (mem : ℕ → ℕ) (offset value len a : ℕ)
    → offset ≤ a
    → a < offset + len
    → memset mem offset value len a ≡ value % 256
unfolding memset
memset_inside mem offset value len a from below = ground arith

pub memset_before :
    (mem : ℕ → ℕ) (offset value len a : ℕ) → a < offset → memset mem offset value len a ≡ mem a
unfolding memset
memset_before mem offset value len a before = ground arith
