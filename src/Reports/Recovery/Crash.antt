-- ===== src/Reports/Recovery/Crash.antt =====
-- Whenever the system crashes, the file that labs/lab_32_crash_recovery.c replaces is the old one or the new one.
use linux_page_cache_lab.Base.{
  ℕ, zero, suc, ◌≡◌, ◌≢◌, refl, sym, ap, ◌∙◌, Bool, true, false, Option, some, List, [], ◌∷◌, ◌⊎◌,
  inl, inr,
}
use linux_page_cache_lab.Reports.Recovery.Disk.{
  create, write, fsync, rename, fsync_directory, FileSystem, IsPosix, if_opened, update_file,
  order_calls, before_crash, perform_all,
}

module _ {Name State : Type 0} {fs : FileSystem Name State} (posix : IsPosix fs) {temp final : Name}
    (apart : temp ≢ final) (s : State) {content taken : List ℕ}
    (wrote : fs.now (fs.perform (write temp content) (fs.perform (create temp) s)) temp
      ≡ some taken) where
  abbrev OldOrNew : Option (List ℕ) → Type 0
  OldOrNew c = fs.Found s final c ⊎ (c ≡ some taken)

  abbrev synced : State
  synced = fs.perform (fsync temp) (fs.perform (write temp content) (fs.perform (create temp) s))

  abbrev renamed : State
  renamed = fs.perform (rename temp final) synced

  synced-Kept : {d : List ℕ} → fs.Kept synced temp d → d ≡ taken
  synced-Kept k = ap_some (sym (posix.fsync_keeps k) ∙ wrote)
    where
      ap_some : {d : List ℕ} → some d ≡ some taken → d ≡ taken
      ap_some e = cc

  synced-Found : {c : Option (List ℕ)} → fs.Found synced final c → fs.Found s final c
  synced-Found f = posix.create_other apart (posix.write_other apart (posix.fsync_other apart f))

  renamed-Found : {c : Option (List ℕ)} → fs.Found renamed final c → OldOrNew c
  renamed-Found f = elim (posix.rename_finds apart f) [
    | inl old ↦ inl (synced-Found old)
    | inr (d, e, k) ↦ inr (e ∙ ap some (synced-Kept k))
  ]

  durable-Found :
      {c : Option (List ℕ)} → fs.Found (fs.perform fsync_directory renamed) final c → c ≡ some taken
  durable-Found f =
      let reads : fs.now renamed final ≡ some taken =
        posix.rename_now apart ∙ posix.fsync_now ∙ wrote in
      let (k, e, kept) = posix.directory_finds reads f in
      e ∙ ap some (synced-Kept (posix.rename_keeps apart kept))

  ending :
      (tmp_opened : Bool) (k : ℕ) {c : Option (List ℕ)}
      → fs.Found
          (perform_all fs (before_crash k (if_opened tmp_opened (fsync_directory ∷ []))) renamed)
          final
          c
      → OldOrNew c
  unfolding before_crash perform_all
  ending tmp_opened zero f = renamed-Found f
  ending false (suc k) f = renamed-Found f
  ending true (suc zero) f = inr (durable-Found f)
  ending true (suc (suc k)) f = inr (durable-Found f)

  at_crash :
      (created tmp_opened : Bool) (k : ℕ) {c : Option (List ℕ)}
      → fs.Found
          (perform_all fs (before_crash k (update_file created tmp_opened temp final content)) s)
          final
          c
      → OldOrNew c
  unfolding update_file before_crash perform_all
  at_crash false tmp_opened zero f = inl f
  at_crash false tmp_opened (suc k) f = inl f
  at_crash true tmp_opened zero f = inl f
  at_crash true tmp_opened (suc zero) f = inl (posix.create_other apart f)
  at_crash true tmp_opened (suc (suc zero)) f =
      inl (posix.create_other apart (posix.write_other apart f))
  at_crash true tmp_opened (suc (suc (suc zero))) f = inl (synced-Found f)
  at_crash true tmp_opened (suc (suc (suc (suc k)))) f = ending tmp_opened k f

  -- If the calls that are made succeed and `write` has taken `taken`: after a crash between any two calls of phase 4 the
  -- name stands for what it could stand for before, or for all of `taken`; once the directory has been synchronised it
  -- stands for `taken`; and phase 2, if its file is opened, makes the same calls.
  pub update_survives :
      (created tmp_opened : Bool)
      → ((k : ℕ) (c : Option (List ℕ))
          → fs.Found
              (perform_all fs
                (before_crash k (update_file created tmp_opened temp final content))
                s)
              final
              c
          → fs.Found s final c ⊎ (c ≡ some taken))
        × ((c : Option (List ℕ))
            → fs.Found (perform_all fs (update_file true true temp final content) s) final c
            → c ≡ some taken)
        × (order_calls true tmp_opened temp final content
            ≡ update_file true tmp_opened temp final content)
  unfolding update_file order_calls perform_all
  update_survives created tmp_opened =
      (λ k c f. at_crash created tmp_opened k f, λ c f. durable-Found f, refl)
