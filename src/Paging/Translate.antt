-- ===== src/Paging/Translate.antt =====
-- `virt_to_phys` of labs/lab_08_paging_intro.c. The file /proc/self/pagemap is a parameter: whether it opens, and the
-- entry that `pread` gives at an offset.
use linux_page_cache_lab.Base.{
  ℕ, ◌+◌, ◌*◌, ◌/◌, ◌%◌, ◌^◌, Bool, Option, none, some, ◌==◌, if◌then◌else◌, List, [], ◌∷◌,
}
use linux_page_cache_lab.Report.{Event, opens, closes}

pub record Pagemap : Type 0 where
  pub opened : Bool
  pub pread : (offset : ℕ) → Option ℕ

-- `entry & (1ULL << 63)` and `entry & ((1ULL << 55) - 1)`.
abbrev pub is_present : ℕ → Bool
is_present entry = entry / 9223372036854775808 % 2 == 1

abbrev pub frame_number : ℕ → ℕ
frame_number entry = entry % 36028797018963968

abbrev pub physical : (page_size addr entry : ℕ) → ℕ
physical page_size addr entry =
    if is_present entry then (frame_number entry * page_size + addr % page_size) % 2 ^ 64 else 0

unfoldable pub virt_to_phys : Pagemap → (page_size addr : ℕ) → ℕ
virt_to_phys map page_size addr =
    if map.opened
    then elim (map.pread (addr / page_size * 8)) [
      | none ↦ 0
      | some entry ↦ physical page_size addr entry
    ]
    else 0

-- The file is closed on every path on which it has opened.
abbrev pub pagemap_events : Pagemap → List Event
pagemap_events map =
    if map.opened then opens "/proc/self/pagemap" ∷ closes "/proc/self/pagemap" ∷ [] else []
