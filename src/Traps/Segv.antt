-- ===== src/Traps/Segv.antt =====
-- labs/lab_05_segmentation_traps.c. Of the printed addresses those of the faults are kept.
use Prim.Native.String.{String}
use linux_page_cache_lab.Base.{
  ℕ, ◌+◌, ◌*◌, Bool, Option, none, some, List, ◌∷◌, [], ◌==◌, if◌then◌else◌,
}
use linux_page_cache_lab.Report.{Event, opens, closes, maps, unmaps, says, shows}
use linux_page_cache_lab.Traps.{
  Fault, State, start, Flow, returns, then_call, say, sigsetjmp, instruction,
}

-- The accesses to memory, by the order in which the program makes them: through NULL; the `memset` of the
-- guard page, and its read; the `memset` of the write-protected page, and its write; the reads of the
-- first and of the second page of the truncated file. The second access to a page happens in the state in which the
-- calls before it have left the page.
pub data Site : Type 0 where
  null_read guard_memset guard_read protect_memset protect_write file_read beyond_read : Site

-- What the system answers. `mmap` and `mprotect` are numbered by their order in the text.
pub record Kernel : Type 0 where
  pub page_size : ℕ
  pub mmap : (moment : ℕ) → Option ℕ
  pub mprotect : (moment : ℕ) → Bool
  pub mkstemp : Bool
  pub access : Site → Option Fault
  pub file_byte : ℕ

abbrev pub sigsegv : ℕ
sigsegv = 11

abbrev pub sigbus : ℕ
sigbus = 7

abbrev pub signal_name : ℕ → String
signal_name sig =
    if sig == sigsegv then "SIGSEGV" else (if sig == sigbus then "SIGBUS" else "OTHER")

-- SEGV_MAPERR and SEGV_ACCERR.
abbrev pub code_name : ℕ → String
code_name si_code =
    if si_code == 1
    then "MAPERR (unmapped)"
    else (if si_code == 2 then "ACCERR (permission)" else "other")

abbrev pub fault_shown : Fault → List Event
fault_shown f =
    shows "Signal" f.sig
    ∷ says (signal_name f.sig)
    ∷ shows "address" f.si_addr
    ∷ shows "Code" f.si_code
    ∷ says (code_name f.si_code)
    ∷ shows "RIP" f.rip
    ∷ []

-- Up to the jump.
abbrev pub segv_handler : Fault → State → State
segv_handler f s = say (fault_shown f) (record s { fault_count = s.fault_count + 1 })

abbrev pub access :
    (frame : ℕ)
    → Option Fault
    → (recover : ℕ → State → Flow) → (go_on : State → Flow) → State
    → Flow
access = instruction segv_handler (λ f. 1)

unfoldable pub demo_null_deref : Kernel → State → Flow
demo_null_deref k s =
    access 1 (k.access null_read)
      (λ value s'. returns (say (says "Recovered from SIGSEGV" ∷ []) s'))
      (λ s'. returns (say (says "This should never print." ∷ []) s')) (sigsetjmp 1 s)

-- The end of the function, after either branch of its `if`.
abbrev pub unmap_page : Kernel → State → Flow
unmap_page k s = returns (say (unmaps k.page_size ∷ []) s)

abbrev pub caught_guard : Kernel → ℕ → State → Flow
caught_guard k value s = unmap_page k (say (says "Caught SIGSEGV on guard page access" ∷ []) s)

-- If `mprotect` fails the function returns with the page still mapped.
unfoldable pub demo_guard_page : Kernel → State → Flow
demo_guard_page k s = elim (k.mmap 0) [
  | none ↦ returns (say (says "mmap" ∷ []) s)
  | some page ↦
      access 2 (k.access guard_memset) (caught_guard k)
        (λ s'.
          if k.mprotect 0
          then access 2 (k.access guard_read) (caught_guard k) (unmap_page k)
              (sigsetjmp 2 (say (says "mprotect(PROT_NONE)" ∷ []) s'))
          else returns (say (says "mprotect" ∷ []) s'))
        (say (maps k.page_size ∷ []) s)
]

abbrev pub caught_write : Kernel → ℕ → State → Flow
caught_write k value s = unmap_page k (say (says "Caught SIGSEGV" ∷ []) s)

-- The results of `mmap` and of `mprotect` are not looked at.
abbrev pub mapped_if : Option ℕ → (bytes : ℕ) → List Event
mapped_if none bytes = []
mapped_if (some page) bytes = maps bytes ∷ []

unfoldable pub demo_write_protect : Kernel → State → Flow
demo_write_protect k s =
    access 3 (k.access protect_memset) (caught_write k)
      (λ s'.
        access 3 (k.access protect_write) (caught_write k) (unmap_page k)
          (sigsetjmp 3 (say (says "is now read-only." ∷ []) s')))
      (say (mapped_if (k.mmap 1) k.page_size) s)

abbrev pub release_file : Kernel → State → Flow
release_file k s = returns (say (unmaps (2 * k.page_size) ∷ closes "/tmp/lab05_busXXXXXX" ∷ []) s)

abbrev pub caught_bus : Kernel → ℕ → State → Flow
caught_bus k value s = release_file k (say (says "Caught SIGBUS" ∷ []) s)

-- The two writes to the file and `ftruncate` show in what the accesses meet.
unfoldable pub demo_bus_error_sim : Kernel → State → Flow
demo_bus_error_sim k s =
    if k.mkstemp
    then elim (k.mmap 2) [
      | none ↦
          returns (
            say (opens "/tmp/lab05_busXXXXXX" ∷ says "mmap" ∷ closes "/tmp/lab05_busXXXXXX" ∷ []) s)
      | some p ↦
          access 4 (k.access file_read) (caught_bus k)
            (λ s'.
              access 4 (k.access beyond_read) (caught_bus k)
                (λ t. release_file k (say (says "(No SIGBUS" ∷ []) t))
                (sigsetjmp 4 (say (shows "Access page 0" k.file_byte ∷ []) s')))
            (say (opens "/tmp/lab05_busXXXXXX" ∷ maps (2 * k.page_size) ∷ []) s)
    ]
    else returns (say (says "mkstemp" ∷ []) s)

-- `main`, after `setup_handler` has made `segv_handler` the handler of SIGSEGV and SIGBUS.
unfoldable pub main : Kernel → Flow
main k =
    then_call
      (then_call
        (then_call (then_call (demo_null_deref k start) (demo_guard_page k)) (demo_write_protect k))
        (demo_bus_error_sim k))
      (λ s. returns (say (shows "Total faults caught" s.fault_count ∷ []) s))
