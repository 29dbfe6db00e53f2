-- ===== src/PageCache/Read.antt =====
-- `read_range` of labs/page_cache_models.c. `file` gives the byte at an offset; `read` moves the
-- offset and fills the buffer with the bytes from there.
pub mod Full
pub mod Total
use linux_page_cache_lab.Base.{
  ℕ, zero, suc, ◌+◌, ◌-◌, ◌%◌, Bool, true, false, not, Option, none, some, ltb, ◌==◌, if◌then◌else◌,
}
use linux_page_cache_lab.Base.Outcome.{Outcome, ok, exit, out_of_fuel, ◌>>=◌}
use linux_page_cache_lab.PageCache.{buf_size, u64_mod, WorkerArg, WorkerResult, Kernel}

-- `remaining > BUF_SIZE ? BUF_SIZE : remaining`.
abbrev pub chunk_of : ℕ → ℕ
chunk_of remaining = if ltb buf_size remaining then buf_size else remaining

module _ (file : ℕ → ℕ) where
  -- `for (i = 0; i < n; i += 4096) checksum += buf[i]`, where the buffer holds the file from `pos`.
  unfoldable pub sample : (fuel i n pos checksum : ℕ) → ℕ
  sample zero i n pos checksum = checksum
  sample (suc fuel) i n pos checksum = elim (ltb i n) [
    | true ↦ sample fuel (i + 4096) n pos ((checksum + file (pos + i)) % u64_mod)
    | false ↦ checksum
  ]

  -- The `while (remaining > 0)` loop: its checksum, or the exit on a read error.
  unfoldable pub read_loop : Kernel → (fuel call pos remaining checksum : ℕ) → Outcome ℕ
  read_loop k zero call pos remaining checksum = out_of_fuel
  read_loop k (suc fuel) call pos zero checksum = ok checksum
  read_loop k (suc fuel) call pos (suc r) checksum = elim (k.read call pos (chunk_of (suc r))) [
    | none ↦ exit 1
    | some zero ↦ ok checksum
    | some (suc n) ↦
        read_loop k fuel (call + 1) (pos + suc n) (suc r - suc n)
          (sample (suc n) 0 (suc n) pos checksum)
  ]

  -- The whole function; `remaining + 1` rounds are enough.
  unfoldable pub read_range : Kernel → ℕ → ℕ → Outcome WorkerResult
  read_range k start end =
      if not k.opens
      then exit 1
      else if not k.seeks
      then exit 1
      else if not k.has_buffer
      then exit 1
      else read_loop k (end - start + 1) 0 start (end - start) 0 >>= λ checksum.
          ok (record { minflt = k.min1 - k.min0; majflt = k.maj1 - k.maj0; checksum = checksum })
