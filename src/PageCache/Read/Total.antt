-- ===== src/PageCache/Read/Total.antt =====
-- `read_range` always ends: each `read` that lets the loop go on takes a byte at least off what
-- remains.
use linux_page_cache_lab.Base.{
  ℕ, zero, suc, ◌+◌, ◌-◌, ◌<◌, ◌≡◌, refl, ◌⊎◌, inl, inr, arith, Option, none, some,
}
use linux_page_cache_lab.Base.Outcome.{Outcome, ok, exit}
use linux_page_cache_lab.PageCache.{Kernel}
use linux_page_cache_lab.PageCache.Read.{chunk_of, sample, read_loop, read_range}

-- It returned a value, or ended the process with status 1.
abbrev pub OkOrFailed {ℓ} : {A : Type ℓ} → Outcome A → Type ℓ
OkOrFailed {A = A} m = ((a : A) × (m ≡ ok a)) ⊎ (m ≡ exit 1)

module _ (file : ℕ → ℕ) (k : Kernel) where
  read_loop_total :
      (fuel call pos remaining checksum : ℕ)
      → remaining < fuel
      → OkOrFailed (read_loop file k fuel call pos remaining checksum)
  unfolding read_loop
  read_loop_total zero call pos remaining checksum enough = absurd (omega arith)
  read_loop_total (suc fuel) call pos zero checksum enough = inl (checksum, refl)
  read_loop_total (suc fuel) call pos (suc r) checksum enough =
      after (k.read call pos (chunk_of (suc r))) refl (λ n.
        read_loop_total fuel (call + 1) (pos + suc n) (suc r - suc n)
          (sample file (suc n) 0 (suc n) pos checksum) (omega arith))
    where
      after :
          (got : Option ℕ)
          → k.read call pos (chunk_of (suc r)) ≡ got
          → ((n : ℕ)
              → OkOrFailed (
                  read_loop file k fuel
                    (call + 1)
                    (pos + suc n)
                    (suc r - suc n)
                    (sample file (suc n) 0 (suc n) pos checksum)))
          → OkOrFailed (read_loop file k (suc fuel) call pos (suc r) checksum)
      after none e rest = rw (e, read_loop) (inr refl)
      after (some zero) e rest = rw (e, read_loop) (inl (checksum, refl))
      after (some (suc n)) e rest = rw (e, read_loop) (rest n)

  -- Whatever the kernel answers, `read_range` returns a result or exits with status 1: the model's
  -- fuel never runs out.
  pub read_range_total : (start end : ℕ) → OkOrFailed (read_range file k start end)
  unfolding read_range
  read_range_total start end =
      grind (arith, read_loop_total (end - start + 1) 0 start (end - start) 0 (omega arith))
