-- ===== src/DemandPaging.antt =====
-- `main` of labs/demand_paging.c: it maps 100 MiB, reads a byte of each chunk, writes the chunks,
-- scans all pages again, and unmaps. The waits for the user, the pauses and the explanations
-- that it prints are left out.
pub mod Sums
use linux_page_cache_lab.Base.{ℕ, zero, suc, ◌+◌, ◌*◌, ◌/◌, Bool, not, ◌==◌, if◌then◌else◌}
use linux_page_cache_lab.Base.Outcome.{Outcome, ok, exit}
use linux_page_cache_lab.Scan.{scan, memset}

-- `TOTAL_MIB`, `CHUNK_MIB` and `MIB`.
abbrev pub total_mib : ℕ
total_mib = 100

abbrev pub chunk_mib : ℕ
chunk_mib = 10

abbrev pub mib : ℕ
mib = 1024 * 1024

-- `TOTAL_BYTES` and `CHUNK_BYTES`.
abbrev pub total_bytes : ℕ
total_bytes = total_mib * mib

abbrev pub chunk_bytes : ℕ
chunk_bytes = chunk_mib * mib

-- What the system answers: the page size of `sysconf` (0 for any answer that is not positive), and
-- whether `mmap` and `munmap` succeed.
pub record Host : Type 0 where
  pub page_size : ℕ
  pub maps : Bool
  pub unmaps : Bool

-- The numbers that the program prints.
pub record Report : Type 0 where
  pub pages_per_chunk : ℕ
  pub total_pages : ℕ
  pub read_sum : ℕ
  pub warm_sum : ℕ

-- The write phase, for `n` chunks from chunk `i` on.
unfoldable pub write_chunks : (n i : ℕ) → (ℕ → ℕ) → ℕ → ℕ
write_chunks zero i mem = mem
write_chunks (suc n) i mem =
    write_chunks n (i + 1) (memset mem (i * chunk_bytes) (i + 1) chunk_bytes)

-- A fresh anonymous mapping.
abbrev pub zeros : ℕ → ℕ
zeros a = 0

-- The whole program; each loop has a round of fuel for each byte it could visit, and one more.
unfoldable pub main : Host → Outcome Report
main host =
    if host.page_size == 0
    then exit 1
    else if not host.maps
    then exit 1
    else if not host.unmaps
    then exit 1
    else ok (record {
      pages_per_chunk = chunk_bytes / host.page_size;
      total_pages = total_bytes / host.page_size;
      read_sum = scan chunk_bytes zeros (total_bytes + 1) 0 total_bytes 0;
      warm_sum =
          scan host.page_size (write_chunks (total_mib / chunk_mib) 0 zeros) (total_bytes + 1) 0
            total_bytes 0;
    })
