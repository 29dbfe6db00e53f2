-- ===== src/Reports/Delivery.antt =====
-- labs/lab_26_signals_demand.c: the signal that the process sends to itself, and the faults of a mapping. `signal` is
-- taken to succeed, and the signal to be delivered before `kill` returns.
use linux_page_cache_lab.Base.{Bool, true, false, ℕ, List, [], ◌∷◌, ◌++◌, ◌*◌, ◌==◌, if◌then◌else◌}
use linux_page_cache_lab.Report.{Run, goes, dies, Event, maps, unmaps, says, shows, Host}
use linux_page_cache_lab.Report.Files.{difference}

-- What `handler` leaves in `got_signal`.
abbrev pub handler : (sig got_signal : ℕ) → ℕ
handler sig got_signal = sig

abbrev pub hundred_pages : ℕ
hundred_pages = 4096 * 100

abbrev pub signal_received : (sigusr1 got_signal : ℕ) → List Event
signal_received sigusr1 got_signal =
    shows "Handler received signal" got_signal
    ∷ says (if got_signal == sigusr1 then "SIGUSR1" else "?")
    ∷ []

abbrev pub fault_counts : Host → List Event
fault_counts host =
    difference "mmap 100 pages: faults" (host.minor 1) (host.minor 0)
    ++ difference "touch 100 pages: faults" (host.minor 2) (host.minor 1)

-- The mapping is written to whether or not `mmap` has succeeded.
unfoldable pub main : (pid sigusr1 : ℕ) → Host → (mapped : Bool) → Run
main pid sigusr1 host false = dies (
    shows "PID" pid
    ∷ (signal_received sigusr1 (handler sigusr1 0)
        ++ difference "mmap 100 pages: faults" (host.minor 1) (host.minor 0)))
main pid sigusr1 host true = goes (
    shows "PID" pid
    ∷ (signal_received sigusr1 (handler sigusr1 0)
        ++ (maps hundred_pages ∷ (fault_counts host ++ (unmaps hundred_pages ∷ [])))))
