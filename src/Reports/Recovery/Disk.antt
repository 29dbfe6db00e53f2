-- ===== src/Reports/Recovery/Disk.antt =====
-- labs/lab_32_crash_recovery.c: the calls of its phases 2 and 4 on a file system, which is a parameter.
use linux_page_cache_lab.Base.{
  ℕ, zero, suc, ◌≡◌, ◌≢◌, Bool, true, false, Option, some, List, [], ◌∷◌, ◌++◌, ◌⊎◌,
}

pub data Call (Name : Type 0) : Type 0 where
  create : Name → Call Name
  write : Name → (content : List ℕ) → Call Name
  fsync : Name → Call Name
  rename : (old new : Name) → Call Name
  fsync_directory : Call Name
  unlink : Name → Call Name

-- `perform` is what a call does; `now` is what the running system reads under a name; `Kept s n d`: after a crash the
-- file that has the name `n` in `s` may hold `d`; `Found s n c`: after a crash a reader may find `c` under the name, where
-- `none` is that there is no such file.
pub record FileSystem (Name State : Type 0) : Type 1 where
  pub perform : Call Name → State → State
  pub now : State → Name → Option (List ℕ)
  pub Kept : State → Name → List ℕ → Type 0
  pub Found : State → Name → Option (List ℕ) → Type 0

-- What POSIX and the manual of ext4 say of calls that succeed. A call on one name does not touch the file of another;
-- after `fsync` the file holds what the system reads; a `rename` leaves under the new name what was there or the file
-- that is renamed, never a part of both; and after `fsync` of the directory the new name stands for that file.
pub record IsPosix {Name State : Type 0} (fs : FileSystem Name State) : Type 0 where
  pub create_other :
      {s : State} {n m : Name} {c : Option (List ℕ)}
      → n ≢ m
      → fs.Found (fs.perform (create n) s) m c
      → fs.Found s m c
  pub write_other :
      {s : State} {n m : Name} {content : List ℕ} {c : Option (List ℕ)}
      → n ≢ m
      → fs.Found (fs.perform (write n content) s) m c
      → fs.Found s m c
  pub fsync_other :
      {s : State} {n m : Name} {c : Option (List ℕ)}
      → n ≢ m
      → fs.Found (fs.perform (fsync n) s) m c
      → fs.Found s m c
  pub fsync_now : {s : State} {n : Name} → fs.now (fs.perform (fsync n) s) n ≡ fs.now s n
  pub fsync_keeps :
      {s : State} {n : Name} {d : List ℕ}
      → fs.Kept (fs.perform (fsync n) s) n d
      → fs.now s n ≡ some d
  pub rename_now :
      {s : State} {old new : Name}
      → old ≢ new
      → fs.now (fs.perform (rename old new) s) new ≡ fs.now s old
  pub rename_keeps :
      {s : State} {old new : Name} {d : List ℕ}
      → old ≢ new
      → fs.Kept (fs.perform (rename old new) s) new d
      → fs.Kept s old d
  pub rename_finds :
      {s : State} {old new : Name} {c : Option (List ℕ)}
      → old ≢ new
      → fs.Found (fs.perform (rename old new) s) new c
      → fs.Found s new c ⊎ ((d : List ℕ) × (c ≡ some d) × fs.Kept s old d)
  pub directory_finds :
      {s : State} {n : Name} {d : List ℕ} {c : Option (List ℕ)}
      → fs.now s n ≡ some d
      → fs.Found (fs.perform fsync_directory s) n c
      → (k : List ℕ) × (c ≡ some k) × fs.Kept s n k

module _ {Name : Type 0} where
  abbrev pub if_opened : Bool → List (Call Name) → List (Call Name)
  if_opened true calls = calls
  if_opened false calls = []

  -- Phase 4 up to the `unlink`: nothing if `mkstemp` has failed, and no `fsync` of /tmp if that cannot be opened.
  unfoldable pub update_file :
      (created tmp_opened : Bool) (temp final : Name) → (content : List ℕ) → List (Call Name)
  update_file created tmp_opened temp final content = if_opened created (
      create temp
      ∷ write temp content
      ∷ fsync temp
      ∷ rename temp final
      ∷ if_opened tmp_opened (fsync_directory ∷ []))

  -- Phase 2 up to the `unlink`; here the `rename` is made even if the file could not be opened.
  unfoldable pub order_calls :
      (opened tmp_opened : Bool) (temp final : Name) → (content : List ℕ) → List (Call Name)
  order_calls opened tmp_opened temp final content =
      if_opened opened (create temp ∷ write temp content ∷ fsync temp ∷ [])
      ++ (rename temp final ∷ if_opened tmp_opened (fsync_directory ∷ []))

  -- The calls that were made before the crash.
  unfoldable pub before_crash : ℕ → List (Call Name) → List (Call Name)
  before_crash zero calls = []
  before_crash (suc k) [] = []
  before_crash (suc k) (call ∷ calls) = call ∷ before_crash k calls

  unfoldable pub perform_all :
      {State : Type 0} → FileSystem Name State → List (Call Name) → State → State
  perform_all fs [] s = s
  perform_all fs (call ∷ calls) s = perform_all fs calls (fs.perform call s)
