-- ===== src/Tests/Crash.antt =====
-- A file system with a cache, and the calls of labs/lab_32_crash_recovery.c on it.
use linux_page_cache_lab.Base.{
  ℕ, ◌≡◌, ◌≢◌, refl, sym, ◌∙◌, arith, true, Option, none, some, List, [], ◌∷◌, ◌++◌, ◌⊎◌, inl, inr,
  update, ℕ_discrete,
}
use linux_page_cache_lab.Reports.Recovery.Disk.{
  Call, create, write, fsync, rename, fsync_directory, unlink, FileSystem, IsPosix, update_file,
  order_calls, before_crash, perform_all,
}
use linux_page_cache_lab.Reports.Recovery.Crash.{update_survives}

-- What the system reads, what is on the disk, and what the directory on the disk had under the name.
record Disk : Type 0 where
  live : ℕ → Option (List ℕ)
  disk : ℕ → Option (List ℕ)
  before : ℕ → Option (List ℕ)

abbrev grown : Option (List ℕ) → List ℕ → Option (List ℕ)
grown none content = none
grown (some d) content = some (d ++ content)

abbrev perform : Call ℕ → Disk → Disk
perform (create n) s = record s {
  live = update s.live n (some []);
  disk = update s.disk n (some []);
}
perform (write n content) s = record s { live = update s.live n (grown (s.live n) content) }
perform (fsync n) s = record s { disk = update s.disk n (s.live n) }
perform (rename old new) s = record s {
  live = update s.live new (s.live old);
  disk = update s.disk new (s.disk old);
}
perform fsync_directory s = record s { before = s.live }
perform (unlink n) s = record s { live = update s.live n none }

abbrev Kept : Disk → ℕ → List ℕ → Type 0
Kept s n d = (s.disk n ≡ some d) ⊎ (s.live n ≡ some d)

abbrev Found : Disk → ℕ → Option (List ℕ) → Type 0
Found s n c = (c ≡ s.before n) ⊎ ((d : List ℕ) × (c ≡ some d) × Kept s n d)

abbrev cached : FileSystem ℕ Disk
cached = record { perform = perform; now = λ s. s.live; Kept = Kept; Found = Found }

elsewhere : {A : Type 0} (f : ℕ → A) (n m : ℕ) (x : A) → n ≢ m → update f n x m ≡ f m
elsewhere f n m x apart = ground arith

there : {A : Type 0} (f : ℕ → A) (n : ℕ) (x : A) → update f n x n ≡ x
there f n x = ground arith

-- What may be found depends on the three parts alone.
same-Found :
    (s u : Disk) (m : ℕ) {c : Option (List ℕ)}
    → u.before m ≡ s.before m
    → u.disk m ≡ s.disk m
    → u.live m ≡ s.live m
    → Found u m c
    → Found s m c
same-Found s u m b d l (inl e) = inl (e ∙ b)
same-Found s u m b d l (inr (x, e, inl k)) = inr (x, e, inl (sym d ∙ k))
same-Found s u m b d l (inr (x, e, inr k)) = inr (x, e, inr (sym l ∙ k))

moved-Kept :
    (s : Disk) (old new : ℕ) {d : List ℕ} → Kept (perform (rename old new) s) new d → Kept s old d
moved-Kept s old new (inl k) = inl (sym (there s.disk new (s.disk old)) ∙ k)
moved-Kept s old new (inr k) = inr (sym (there s.live new (s.live old)) ∙ k)

cached-IsPosix : IsPosix cached
cached-IsPosix = record {
  create_other = λ {s} {n} {m} {c} apart f.
      same-Found s (perform (create n) s) m refl (elsewhere s.disk n m (some []) apart)
        (elsewhere s.live n m (some []) apart) f;
  write_other = λ {s} {n} {m} {content} {c} apart f.
      same-Found s (perform (write n content) s) m refl refl
        (elsewhere s.live n m (grown (s.live n) content) apart) f;
  fsync_other = λ {s} {n} {m} {c} apart f.
      same-Found s (perform (fsync n) s) m refl (elsewhere s.disk n m (s.live n) apart) refl f;
  fsync_now = refl;
  fsync_keeps = λ {s} {n} {d} k. elim k [
    | inl on_disk ↦ sym (there s.disk n (s.live n)) ∙ on_disk
    | inr read ↦ read
  ];
  rename_now = λ {s} {old} {new} apart. there s.live new (s.live old);
  rename_keeps = λ {s} {old} {new} {d} apart k. moved-Kept s old new k;
  rename_finds = λ {s} {old} {new} {c} apart f. elim f [
    | inl e ↦ inl (inl e)
    | inr (d, e, k) ↦ inr (d, e, moved-Kept s old new k)
  ];
  directory_finds = λ {s} {n} {d} {c} e f. elim f [ inl q ↦ (d, q ∙ e, inr e) | inr found ↦ found ];
}

-- The name 1 stands for an old file; 0 is the temporary one.
abbrev old_file : ℕ → Option (List ℕ)
old_file = update (λ n. none) 1 (some (7 ∷ []))

abbrev start : Disk
start = record { live = old_file; disk = old_file; before = old_file }

abbrev content : List ℕ
content = 8 ∷ 9 ∷ []

update_survives_example :
    ((k : ℕ) (c : Option (List ℕ))
      → Found (perform_all cached (before_crash k (update_file true true 0 1 content)) start) 1 c
      → Found start 1 c ⊎ (c ≡ some content))
    × ((c : Option (List ℕ))
        → Found (perform_all cached (update_file true true 0 1 content) start) 1 c
        → c ≡ some content)
    × (order_calls {Name = ℕ} true true 0 1 content ≡ update_file true true 0 1 content)
unfolding ℕ_discrete
update_survives_example = update_survives cached-IsPosix (omega arith) start refl true true
