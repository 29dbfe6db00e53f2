-- ===== src/Traps/Signals.antt =====
-- labs/lab_06_trap_handlers.c.
use Prim.Native.String.{String}
use linux_page_cache_lab.Base.{ℕ, Option, ◌∷◌, [], ◌==◌, if◌then◌else◌}
use linux_page_cache_lab.Report.{says, shows}
use linux_page_cache_lab.Traps.{
  Fault, State, start, Flow, returns, then_call, say, sigsetjmp, instruction,
}

-- The signals of `install_handlers`, as Linux numbers them.
abbrev pub signal_name : ℕ → String
signal_name sig =
    if sig == 8
    then "SIGFPE"
    else (if sig == 4
        then "SIGILL"
        else (if sig == 11
            then "SIGSEGV"
            else (if sig == 7 then "SIGBUS" else (if sig == 5 then "SIGTRAP" else "UNKNOWN"))))

-- Up to the jump.
abbrev pub trap_handler : Fault → State → State
trap_handler f = say (
    says (signal_name f.sig)
    ∷ shows "signal" f.sig
    ∷ shows "si_code" f.si_code
    ∷ shows "si_addr" f.si_addr
    ∷ shows "RIP" f.rip
    ∷ shows "RSP" f.rsp
    ∷ [])

-- `siglongjmp(jbuf, sig)`, after which `sigsetjmp` returns 1 in place of 0.
abbrev pub jump_value : Fault → ℕ
jump_value f = if f.sig == 0 then 1 else f.sig

abbrev pub execute :
    (frame : ℕ)
    → Option Fault
    → (recover : ℕ → State → Flow) → (go_on : State → Flow) → State
    → Flow
execute = instruction trap_handler jump_value

-- What the division, `int3` and the read of 0xDEADBEEF0000 come to.
pub record Machine : Type 0 where
  pub division : Option Fault
  pub int3 : Option Fault
  pub bad_read : Option Fault

unfoldable pub demo_div_zero : Machine → State → Flow
demo_div_zero m s =
    execute 1 m.division
      (λ recovered s'.
        returns (say (says "Recovered from SIGFPE" ∷ shows "signal" recovered ∷ []) s'))
      returns (say (shows "Computing" 42 ∷ shows "/" 0 ∷ []) (sigsetjmp 1 s))

-- The version for x86-64.
unfoldable pub demo_breakpoint : Machine → State → Flow
demo_breakpoint m s =
    execute 3 m.int3 (λ recovered s'. returns (say (says "Caught SIGTRAP" ∷ []) s')) returns
      (sigsetjmp 3 s)

-- 0xDEADBEEF0000.
abbrev pub bad_address : ℕ
bad_address = 244837814042624

unfoldable pub demo_fault_address_handler : Machine → State → Flow
demo_fault_address_handler m s =
    execute 4 m.bad_read (λ value s'. returns (say (says "Handler printed si_addr" ∷ []) s'))
      returns (say (shows "Accessing unmapped address" bad_address ∷ []) (sigsetjmp 4 s))

unfoldable pub main : Machine → Flow
main m =
    then_call (then_call (demo_div_zero m start) (demo_breakpoint m)) (demo_fault_address_handler m)
