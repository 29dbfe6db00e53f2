-- ===== src/DemandPaging/Sums.antt =====
-- What the three phases of labs/demand_paging.c find in memory.
use linux_page_cache_lab.Base.{
  ℕ, zero, suc, ◌+◌, ◌-◌, ◌*◌, ◌/◌, ◌%◌, ◌≤◌, ◌<◌, ◌≡◌, refl, ◌∙◌, ap, arith, true, false,
  ℕ_discrete, ◌==◌,
}
use native.Mathlib.Nat.{le-div_iff_mul-le, div-lt_iff_lt-mul}
use linux_page_cache_lab.Base.Outcome.{ok}
use linux_page_cache_lab.Scan.{
  word, scan, scan_const, scan_end, memset, memset_inside, memset_before,
}
use linux_page_cache_lab.DemandPaging.{Host, chunk_bytes, total_bytes, write_chunks, zeros, main}

write_chunks_before :
    (n i a : ℕ) (mem : ℕ → ℕ) → a < i * chunk_bytes → write_chunks n i mem a ≡ mem a
unfolding write_chunks
write_chunks_before zero i a mem h = refl
write_chunks_before (suc n) i a mem h =
    write_chunks_before n (i + 1) a (memset mem (i * chunk_bytes) (i + 1) chunk_bytes) (omega arith)
    ∙ memset_before mem (i * chunk_bytes) (i + 1) chunk_bytes a h

-- After the write phase every byte of chunk `j` holds `j + 1`.
write_chunks_lem :
    (n i j b : ℕ) (mem : ℕ → ℕ)
    → i ≤ j
    → j < i + n
    → b < chunk_bytes
    → write_chunks n i mem (j * chunk_bytes + b) ≡ (j + 1) % 256
unfolding write_chunks
write_chunks_lem zero i j b mem from below inside = absurd (omega arith)
write_chunks_lem (suc n) i j b mem from below inside = elim (ℕ_discrete i j) [
  | yes now ↦
      write_chunks_before n (i + 1) (j * chunk_bytes + b)
        (memset mem (i * chunk_bytes) (i + 1) chunk_bytes) (omega arith)
      ∙ memset_inside mem (i * chunk_bytes) (i + 1) chunk_bytes (j * chunk_bytes + b) (omega arith)
          (omega arith)
      ∙ ap (λ c. (c + 1) % 256) now
  | no later ↦
      write_chunks_lem n (i + 1) j b (memset mem (i * chunk_bytes) (i + 1) chunk_bytes)
        (omega arith) (omega arith) inside
]

-- What `p` visits in each of `n` chunks from chunk `i` on add up to.
weights : (n i : ℕ) → ℕ
weights zero i = 0
weights (suc n) i = (i + 1) % 256 + weights n (i + 1)

weigh : (sum p v w : ℕ) → ((sum + v * p) % word + w * p) % word ≡ (sum + (v + w) * p) % word
weigh sum p v w = grind arith

module _ (ps p : ℕ) (whole : ps * p ≡ chunk_bytes) (some_page : 0 < ps) where
  visit : (j : ℕ) → j < p → ps * j < chunk_bytes
  visit j lt = grind arith

  scan_chunks :
      (n i fuel sum : ℕ)
      → sum < word
      → i + n ≤ 10
      → scan ps (write_chunks 10 0 zeros) (p * n + fuel) (i * chunk_bytes) total_bytes sum
        ≡ scan ps
            (write_chunks 10 0 zeros)
            fuel
            ((i + n) * chunk_bytes)
            total_bytes
            ((sum + weights n i * p) % word)
  unfolding weights
  scan_chunks zero i fuel sum small inside = ground arith
  scan_chunks (suc n) i fuel sum small inside =
      ap (λ f. scan ps mem f (i * chunk_bytes) total_bytes sum) (fuel_at)
      ∙ scan_const ps mem p ((i + 1) % 256) (p * n + fuel) (i * chunk_bytes) total_bytes sum small
          some_page (omega (arith, whole))
          (λ j lt. write_chunks_lem 10 0 i (ps * j) zeros (omega arith) (omega arith) (visit j lt))
      ∙ ap (λ a. scan ps mem (p * n + fuel) a total_bytes ((sum + (i + 1) % 256 * p) % word))
          (omega (arith, whole))
      ∙ scan_chunks n (i + 1) fuel ((sum + (i + 1) % 256 * p) % word) (omega arith) (omega arith)
      ∙ ap
          (λ a.
            scan ps mem fuel a total_bytes
              (((sum + (i + 1) % 256 * p) % word + weights n (i + 1) * p) % word))
          {y = (i + suc n) * chunk_bytes} (omega arith)
      ∙ ap (λ r. scan ps mem fuel ((i + suc n) * chunk_bytes) total_bytes r)
          (weigh sum p ((i + 1) % 256) (weights n (i + 1)))
    where
      mem : ℕ → ℕ
      mem = write_chunks 10 0 zeros

      fuel_at : p * suc n + fuel ≡ p + (p * n + fuel)
      fuel_at = grind arith

module _ (host : Host) (p : ℕ) (whole : host.page_size * p ≡ chunk_bytes) where
  some_page : 0 < host.page_size
  some_page = grind arith

  few : p ≤ chunk_bytes
  few = grind arith

  warm : scan host.page_size (write_chunks 10 0 zeros) (total_bytes + 1) 0 total_bytes 0 ≡ 55 * p
  unfolding weights
  warm =
      ap (λ f. scan host.page_size (write_chunks 10 0 zeros) f 0 total_bytes 0)
        {y = p * 10 + (total_bytes + 1 - p * 10)} (omega (arith, few))
      ∙ scan_chunks host.page_size p whole some_page 10 0 (total_bytes + 1 - p * 10) 0 (omega arith)
          (omega arith)
      ∙ scan_end host.page_size (write_chunks 10 0 zeros) (total_bytes + 1 - p * 10)
          ((0 + 10) * chunk_bytes) total_bytes ((0 + weights 10 0 * p) % word) (omega arith)
      ∙ omega (arith, few)

  cold : scan chunk_bytes zeros (total_bytes + 1) 0 total_bytes 0 ≡ 0
  cold =
      scan_const chunk_bytes zeros 10 0 (total_bytes - 9) 0 total_bytes 0 (omega arith)
        (omega arith) (omega arith) (λ j lt. refl)
      ∙ scan_end chunk_bytes zeros (total_bytes - 9) (0 + chunk_bytes * 10) total_bytes
          ((0 + 0 * 10) % word) (omega arith)

  chunk_pages : chunk_bytes / host.page_size ≡ p
  chunk_pages = grind arith

  all_pages : total_bytes / host.page_size ≡ 10 * p
  all_pages = ap (λ n. n / host.page_size) ten_chunks ∙ exact (10 * p)
    where
      ten_chunks : total_bytes ≡ host.page_size * (10 * p)
      ten_chunks = grind arith

      reaches : (q : ℕ) → q ≤ host.page_size * q / host.page_size
      reaches q = (le-div_iff_mul-le some_page).1 (grind arith)

      stops : (q : ℕ) → host.page_size * q / host.page_size < q + 1
      stops q = (div-lt_iff_lt-mul some_page).1 (grind arith)

      exact : (q : ℕ) → host.page_size * q / host.page_size ≡ q
      exact q = omega (arith, reaches q, stops q)

  tested : (host.page_size == 0) ≡ false
  tested = ground (arith, some_page)

  -- When the system maps and unmaps the memory and its page size divides 10 MiB, the program
  -- ends well: the cold read finds zeros only, and the warm scan finds each of the `p` pages of chunk
  -- `i` with the value `i + 1`, which adds up to `55 * p`.
  pub demand_paging_sums :
      host.maps ≡ true
      → host.unmaps ≡ true
      → main host
        ≡ ok (record { pages_per_chunk = p; total_pages = 10 * p; read_sum = 0; warm_sum = 55 * p })
  unfolding main
  demand_paging_sums maps unmaps =
      rw (tested, maps, unmaps, chunk_pages, all_pages, cold, warm) refl
