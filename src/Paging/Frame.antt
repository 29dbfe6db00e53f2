-- ===== src/Paging/Frame.antt =====
-- The physical address names the frame and keeps the place in the page.
use native.Mathlib.Nat.{
  mod-eq_of_lt, mul-add-mod_self_right, mul-add-div_right, mod-lt, div-eq_of_lt,
}
use linux_page_cache_lab.Base.{
  ℕ, ◌+◌, ◌*◌, ◌/◌, ◌%◌, ◌^◌, ◌<◌, ◌≤◌, ◌≡◌, refl, ◌∙◌, arith, true, some,
}
use linux_page_cache_lab.Paging.Translate.{Pagemap, is_present, frame_number, virt_to_phys}

-- An entry of a page that is present, with its flags in bits 55 to 62 and its frame below.
abbrev pub entry_of : (flags frame : ℕ) → ℕ
entry_of flags frame = 9223372036854775808 + flags * 36028797018963968 + frame

entry-present :
    (flags frame : ℕ)
    → flags < 256
    → frame < 36028797018963968
    → is_present (entry_of flags frame) ≡ true
entry-present flags frame h k = ground arith

entry-frame :
    (flags frame : ℕ)
    → flags < 256
    → frame < 36028797018963968
    → frame_number (entry_of flags frame) ≡ frame
entry-frame flags frame h k = omega arith

module _ (map : Pagemap) (page_size addr flags frame : ℕ) (opened : map.opened ≡ true)
    (given : map.pread (addr / page_size * 8) ≡ some (entry_of flags frame)) (few : flags < 256)
    (small : frame < 36028797018963968) where
  translated : virt_to_phys map page_size addr ≡ (frame * page_size + addr % page_size) % 2 ^ 64
  unfolding virt_to_phys
  translated =
      rw
        (
          opened,
          given,
          virt_to_phys,
          entry-present flags frame few small,
          entry-frame flags frame few small,
        )
        refl

  -- If the entry of the page says that it is present in a frame that ends within 64 bits of addresses, the physical address gives
  -- back that frame, and the same place in the page as the virtual address.
  pub phys_frame :
      0 < page_size
      → (frame + 1) * page_size ≤ 18446744073709551616
      → (virt_to_phys map page_size addr / page_size ≡ frame)
        × (virt_to_phys map page_size addr % page_size ≡ addr % page_size)
  phys_frame sized fits =
      let place : addr % page_size < page_size = mod-lt addr sized in
      let whole : (frame + 1) * page_size ≡ frame * page_size + page_size = grind arith in
      let exact : virt_to_phys map page_size addr ≡ frame * page_size + addr % page_size =
        translated ∙ mod-eq_of_lt (omega arith) in
      (
        rw (exact, mul-add-div_right sized frame (addr % page_size), div-eq_of_lt place)
            (omega arith),
        rw (exact, mul-add-mod_self_right frame page_size (addr % page_size)) (mod-eq_of_lt place),
      )

-- If the kernel hides the frame by a 0, as it does from an unprivileged reader, the result is the place in the page, which the
-- caller takes for an address unless it is 0.
pub hidden_frame :
    (map : Pagemap) (page_size addr flags : ℕ)
    → map.opened ≡ true
    → map.pread (addr / page_size * 8) ≡ some (entry_of flags 0)
    → flags < 256
    → 0 < page_size
    → page_size ≤ 18446744073709551616
    → virt_to_phys map page_size addr ≡ addr % page_size
hidden_frame map page_size addr flags opened given few sized fits =
    let place : addr % page_size < page_size = mod-lt addr sized in
    translated map page_size addr flags 0 opened given few (omega arith)
    ∙ mod-eq_of_lt (omega arith)
    ∙ omega arith
