-- ===== src/Processes/Ancestors/Walk.antt =====
-- What the walk to the ancestors prints.
use Prim.Native.String.{String}
use text.Mathlib.Text.{starts_with}
use mathlib.Core.List.{append-nil}
use linux_page_cache_lab.Base.{
  ℕ, zero, suc, ◌+◌, ◌-◌, ◌*◌, ◌<◌, ◌≤◌, ◌≡◌, refl, ap, ◌∙◌, arith, Option, none, some, List, [],
  ◌∷◌, ◌++◌, length, if◌then◌else◌, leb, lt→ltb, ◌⊎◌, inl, inr, Bool, true, false,
}
use linux_page_cache_lab.Report.{Event, opens, closes, says, shows, File}
use linux_page_cache_lab.Processes.Ancestors.{
  Parent, scan_line, scan_status, or_else, Walked, walk, demo_our_ancestors, max_depth,
}

-- The values of the lines that start with a key, as far as they can be read, and the last of a list.
abbrev pub found {ℓ} : {A : Type ℓ} → Option A → List A → List A
found none rest = rest
found (some a) rest = a ∷ rest

unfoldable pub values {ℓ} :
    {A : Type ℓ} → (key : String) → (read : String → Option A) → List String → List A
values key read [] = []
values key read (l ∷ ls) =
    let rest = values key read ls in if starts_with l key then found (read l) rest else rest

unfoldable pub last_or {ℓ} : {A : Type ℓ} → A → List A → A
last_or a [] = a
last_or a (b ∷ bs) = last_or b bs

-- A process with its name, as `Name:` gives it.
pub record Shown : Type 0 where
  pub pid : ℕ
  pub name : String

-- The lines for a chain of processes, each two columns further to the right.
unfoldable pub lines_of : (depth : ℕ) → List Shown → List Event
lines_of depth [] = []
lines_of depth (p ∷ ps) =
    opens "/proc/PID/status"
    ∷ closes "/proc/PID/status"
    ∷ shows "indent" (depth * 2)
    ∷ shows "PID" p.pid
    ∷ says p.name
    ∷ lines_of (depth + 1) ps

module _ (name_text : String → Option String) (ppid_text : String → Option ℕ) where
  abbrev pub name_in : File → String
  name_in f = last_or "?" (values "Name:" name_text f.lines)

  abbrev pub ppid_in : File → ℕ
  ppid_in f = last_or 0 (values "PPid:" ppid_text f.lines)

  kept :
      {A : Type 0} (a : A) (o : Option A) (rest : List A)
      → last_or (or_else a o) rest ≡ last_or a (found o rest)
  unfolding last_or
  kept a none rest = refl
  kept a (some b) rest = refl

  changed :
      (named numbered : Bool) (p : Parent) (n : Option String) (k : Option ℕ) (names : List String)
      (ppids : List ℕ)
      → let q : Parent = if named then record p { name = or_else p.name n } else p in
        let u : Parent = if numbered then record q { ppid = or_else q.ppid k } else q in
        (last_or u.name names ≡ last_or p.name (if named then found n names else names))
        × (last_or u.ppid ppids ≡ last_or p.ppid (if numbered then found k ppids else ppids))
  changed true true p n k names ppids = (kept p.name n names, kept p.ppid k ppids)
  changed true false p n k names ppids = (kept p.name n names, refl)
  changed false true p n k names ppids = (refl, kept p.ppid k ppids)
  changed false false p n k names ppids = (refl, refl)

  -- What one line changes.
  step :
      (p : Parent) (l : String) (names : List String) (ppids : List ℕ)
      → (last_or (scan_line name_text ppid_text p l).name names
          ≡ last_or p.name (if starts_with l "Name:" then found (name_text l) names else names))
        × (last_or (scan_line name_text ppid_text p l).ppid ppids
            ≡ last_or p.ppid (if starts_with l "PPid:" then found (ppid_text l) ppids else ppids))
  step p l names ppids =
      changed (starts_with l "Name:") (starts_with l "PPid:") p (name_text l) (ppid_text l) names
        ppids

  scan_status_lem :
      (p : Parent) (ls : List String)
      → ((scan_status name_text ppid_text p ls).name ≡ last_or p.name (values "Name:" name_text ls))
        × ((scan_status name_text ppid_text p ls).ppid
            ≡ last_or p.ppid (values "PPid:" ppid_text ls))
  unfolding scan_status values last_or
  scan_status_lem p [] = (refl, refl)
  scan_status_lem p (l ∷ ls) =
      let rest = scan_status_lem (scan_line name_text ppid_text p l) ls in
      let one = step p l (values "Name:" name_text ls) (values "PPid:" ppid_text ls) in
      (rest.0 ∙ one.0, rest.1 ∙ one.1)

  module _ (status : ℕ → Option File) where
    -- The processes from one number up to another; the number above 1 of each has a status that can be read, and `PPid:` there
    -- is the number of the next.
    pub data Ancestors : List Shown → (pid last : ℕ) → Type 0 where
      here : {pid : ℕ} → Ancestors [] pid pid
      up :
          {ps : List Shown} {pid last : ℕ} {f : File}
          → 1 < pid
          → status pid ≡ some f
          → Ancestors ps (ppid_in f) last
          → Ancestors (record { pid = pid; name = name_in f } ∷ ps) pid last

    abbrev rounds : (m depth pid : ℕ) → Walked
    rounds = walk name_text ppid_text status

    walk_up :
        {ps : List Shown} {pid last : ℕ}
        → Ancestors ps pid last
        → (m left depth : ℕ) → m ≡ length ps + left
        → ((rounds m depth pid).events
            ≡ lines_of depth ps ++ (rounds left (depth + length ps) last).events)
          × ((rounds m depth pid).pid ≡ (rounds left (depth + length ps) last).pid)
          × ((rounds m depth pid).depth ≡ (rounds left (depth + length ps) last).depth)
    unfolding walk lines_of
    walk_up (here {pid = pid}) m left depth e =
        let same : m ≡ left = omega arith in
        let still : depth + 0 ≡ depth = omega arith in rw (same, still) (refl, refl, refl)
    walk_up (up {ps = ps} {last = last} more held a) zero left depth e = absurd (omega arith)
    walk_up (up {ps = ps} {pid = pid} {last = last} {f = f} more held a) (suc m) left depth e =
        let next : depth + suc (length ps) ≡ depth + 1 + length ps = omega arith in
        let rest = walk_up a m left (depth + 1) (omega arith) in
        let set = scan_status_lem (record { name = "?"; ppid = 0 }) f.lines in
        rw (walk, lt→ltb _ _ more, held, next, set.0, set.1) (rw (rest.0) refl, rest.1, rest.2)

    -- The walk goes no further: the process is the first one or has no number, its status cannot be read, or 20
    -- lines have been printed.
    abbrev pub Stops : (n last : ℕ) → Type 0
    Stops n last = (last ≤ 1) ⊎ ((status last ≡ none) ⊎ (n ≡ max_depth name_text ppid_text))

    walk-Stops :
        (left depth n last : ℕ)
        → n + left ≡ max_depth name_text ppid_text
        → Stops n last
        → rounds left depth last ≡ record { events = []; pid = last; depth = depth }
    unfolding walk
    walk-Stops zero depth n last e stop = refl
    walk-Stops (suc left) depth n last e (inl low) = ground arith
    walk-Stops (suc left) depth n last e (inr (inl gone)) = ground (arith, gone)
    walk-Stops (suc left) depth n last e (inr (inr full)) = absurd (omega arith)

    -- If a chain of at most 20 processes leads from the process to where the walk stops, each the parent that the last readable line
    -- `PPid` of the one before names, the program prints exactly a line for each of them, in order, with its number, the name that the
    -- last readable line `Name` gives and two columns more of indent than the line before; and then, exactly if it stopped at a number
    -- of at most 1, the last line for process 1, two columns further on.
    pub ancestors_lem :
        {ps : List Shown} {pid last : ℕ}
        → length ps ≤ 20
        → Ancestors ps pid last
        → Stops (length ps) last
        → demo_our_ancestors name_text ppid_text status pid
          ≡ lines_of 0 ps
            ++ (if leb last 1 then shows "PID 1 (init/systemd)" (length ps * 2) ∷ [] else [])
    unfolding demo_our_ancestors
    ancestors_lem {ps} {pid} {last} few a stop =
        let above = walk_up a 20 (20 - length ps) 0 (omega arith) in
        let stopped =
          walk-Stops (20 - length ps) (0 + length ps) (length ps) last (omega arith) stop in
        let last_pid : (rounds 20 0 pid).pid ≡ last =
          above.1 ∙ ap (λ (w : Walked). w.pid) stopped in
        let depth : (rounds 20 0 pid).depth ≡ length ps =
          above.2 ∙ ap (λ (w : Walked). w.depth) stopped ∙ omega arith in
        let lines : (rounds 20 0 pid).events ≡ lines_of 0 ps =
          above.0
          ∙ ap (λ (w : Walked). lines_of 0 ps ++ w.events) stopped
          ∙ append-nil (lines_of 0 ps) in
        rw (demo_our_ancestors, last_pid, depth, lines) refl
