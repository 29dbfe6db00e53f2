-- ===== src/Processes/Ancestors.antt =====
-- labs/lab_17_first_process.c. `ppid_text` and `name_text` stand for the `sscanf` of a line, which gives nothing if the text
-- does not fit; `stat` says whether a path exists.
pub mod Walk
use Prim.Native.String.{String}
use text.Mathlib.Text.{starts_with}
use linux_page_cache_lab.Base.{
  ℕ, zero, suc, ◌+◌, ◌*◌, Bool, true, false, ◌||◌, Option, none, some, List, [], ◌∷◌, ◌++◌,
  if◌then◌else◌, ltb, leb, ◌==◌, map,
}
use linux_page_cache_lab.Report.{Event, opens, closes, says, shows, File, Host}
use linux_page_cache_lab.Report.Files.{reading, first_lines, select_lines, starts_with_any}

abbrev pub status_keys : List String
status_keys = "Name:" ∷ "Pid:" ∷ "PPid:" ∷ "State:" ∷ "Threads:" ∷ "VmRSS:" ∷ []

-- The bytes of the command line that `fread` gives, at most 511, are printed with a space for each 0.
abbrev pub first : ℕ → List ℕ → List ℕ
first zero bytes = []
first (suc n) [] = []
first (suc n) (b ∷ bytes) = b ∷ first n bytes

abbrev pub spaced : ℕ → ℕ
spaced b = if b == 0 then 32 else b

abbrev pub cmdline_events : (as_text : List ℕ → String) → Option (List ℕ) → List Event
cmdline_events as_text none = says "(cannot read" ∷ []
cmdline_events as_text (some bytes) =
    opens "/proc/1/cmdline"
    ∷ closes "/proc/1/cmdline"
    ∷ says (as_text (map spaced (first 511 bytes)))
    ∷ []

abbrev pub demo_pid1_info : (as_text : List ℕ → String) → Option (List ℕ) → Host → List Event
demo_pid1_info as_text cmdline host =
    cmdline_events as_text cmdline
    ++ reading (host.file 0 "/proc/1/status") "/proc/1/status" (says "(cannot read" ∷ [])
        (λ f. select_lines (starts_with_any status_keys) f.lines)

-- `name` and `ppid` of the loop.
pub record Parent : Type 0 where
  pub name : String
  pub ppid : ℕ

abbrev pub or_else {ℓ} : {A : Type ℓ} → A → Option A → A
or_else a none = a
or_else a (some b) = b

pub record Walked : Type 0 where
  pub events : List Event
  pub pid : ℕ
  pub depth : ℕ

module _ (name_text : String → Option String) (ppid_text : String → Option ℕ) where
  -- A later line with the same key replaces what an earlier one has set.
  abbrev pub scan_line : Parent → String → Parent
  scan_line p l =
      let named =
        if starts_with l "Name:" then record p { name = or_else p.name (name_text l) } else p in
      if starts_with l "PPid:"
      then record named { ppid = or_else named.ppid (ppid_text l) }
      else named

  unfoldable pub scan_status : Parent → List String → Parent
  scan_status p [] = p
  scan_status p (l ∷ ls) = scan_status (scan_line p l) ls

  abbrev pub parent_of : File → Parent
  parent_of f = scan_status (record { name = "?"; ppid = 0 }) f.lines

  -- The loop of `demo_our_ancestors`, with so many rounds left until `depth` is 20.
  unfoldable pub walk : (status : ℕ → Option File) → (left depth pid : ℕ) → Walked
  walk status zero depth pid = record { events = []; pid = pid; depth = depth }
  walk status (suc left) depth pid = elim (ltb 1 pid) [
    | false ↦ record { events = []; pid = pid; depth = depth }
    | true ↦ elim (status pid) [
      | none ↦ record { events = []; pid = pid; depth = depth }
      | some f ↦
          let above = walk status left (depth + 1) (parent_of f).ppid in
          record above {
            events =
                opens "/proc/PID/status"
                ∷ closes "/proc/PID/status"
                ∷ shows "indent" (depth * 2)
                ∷ shows "PID" pid
                ∷ says (parent_of f).name
                ∷ above.events;
          }
    ]
  ]

  abbrev pub max_depth : ℕ
  max_depth = 20

  unfoldable pub demo_our_ancestors : (status : ℕ → Option File) → (pid : ℕ) → List Event
  demo_our_ancestors status pid =
      let walked = walk status max_depth 0 pid in
      walked.events
      ++ (if leb walked.pid 1 then shows "PID 1 (init/systemd)" (walked.depth * 2) ∷ [] else [])

abbrev pub demo_systemd_units : (stat : String → Bool) → Host → List Event
demo_systemd_units stat host =
    (if stat "/run/systemd/private" || stat "/run/systemd"
      then says "systemd detected" ∷ []
      else says "systemd not detected" ∷ [])
    ++ ((if stat "/.dockerenv" then says "Running inside Docker" ∷ [] else [])
        ++ reading (host.file 0 "/proc/1/cgroup") "/proc/1/cgroup" [] (λ f. first_lines f.lines 5))

-- `main`; `pid` is the number of this process.
unfoldable pub main :
    (name_text : String → Option String)
    → (ppid_text : String → Option ℕ) → (as_text : List ℕ → String) → (cmdline : Option (List ℕ))
    → Host
    → (status : ℕ → Option File) → (stat : String → Bool) → (pid : ℕ) → List Event
unfolding demo_our_ancestors
main name_text ppid_text as_text cmdline host status stat pid =
    demo_pid1_info as_text cmdline host
    ++ (demo_our_ancestors name_text ppid_text status pid ++ demo_systemd_units stat host)
