-- ===== src/Calling.antt =====
-- labs/lab_03_x86_calling.c. The registers of a frame and the time stamps are parameters; a `long` and an `int` are numbers
-- here, as no argument or sum of the program is negative or leaves its type.
pub mod Sums
use Prim.Native.String.{String}
use linux_page_cache_lab.Base.{ℕ, zero, suc, ◌+◌, ◌-◌, ◌*◌, ◌%◌, ◌^◌, List, [], ◌∷◌, ◌++◌}
use linux_page_cache_lab.Report.{Event, says, shows}
use linux_page_cache_lab.Report.Files.{difference}

abbrev pub demo_args : (a b c d e f g h : ℕ) → ℕ × List Event
demo_args a b c d e f g h = (
  a + b + c + d + e + f + g + h,
  shows "a(rdi)" a
      ∷ shows "b(rsi)" b
      ∷ shows "c(rdx)" c
      ∷ shows "d(rcx)" d
      ∷ shows "e(r8)" e
      ∷ shows "f(r9)" f
      ∷ shows "g(stack)" g
      ∷ shows "h(stack)" h
      ∷ [],
)

abbrev pub demo_calling_convention : List Event
demo_calling_convention =
    let (result, printed) = demo_args 1 2 3 4 5 6 7 8 in
    printed ++ (shows "Return value" result ∷ [])

-- What a call of `demo_stack_frame` reads.
pub record Frame : Type 0 where
  pub local_address : ℕ
  pub rbp : ℕ
  pub rsp : ℕ
  pub ret_addr : ℕ

abbrev pub frame_lines : (depth : ℕ) → Frame → List Event
frame_lines depth frame =
    shows "depth" depth
    ∷ shows "&local_var" frame.local_address
    ∷ shows "value" (57005 + depth)
    ∷ shows "rbp" frame.rbp
    ∷ shows "rsp" frame.rsp
    ∷ shows "ret_addr" frame.ret_addr
    ∷ difference "frame_size" frame.rbp frame.rsp

abbrev pub demo_stack_frame : (frames : ℕ → Frame) → (depth : ℕ) → List Event
demo_stack_frame frames zero = frame_lines zero (frames zero)
demo_stack_frame frames (suc depth) =
    frame_lines (suc depth) (frames (suc depth)) ++ demo_stack_frame frames depth

-- `((uint64_t)hi << 32) | lo`, from two halves of 32 bits.
abbrev pub time_stamp : (hi lo : ℕ) → ℕ
time_stamp hi lo = hi * 4294967296 + lo

-- The loop of `compute_without_volatile` and of `compute_with_volatile`, with `left` rounds to go.
unfoldable pub compute : (left i sum : ℕ) → ℕ
compute zero i sum = sum
compute (suc left) i sum = compute left (i + 1) (sum + i)

abbrev pub demo_volatile_effect : List Event
demo_volatile_effect =
    shows "Without volatile" (compute 1000 0 0) ∷ shows "With volatile" (compute 1000 0 0) ∷ []

abbrev pub add_two : (a b : ℕ) → ℕ
add_two a b = a + b

abbrev pub demo_disassembly_hint : (address : ℕ) → List Event
demo_disassembly_hint address =
    shows "add_two(17, 25)" (add_two 17 25) ∷ shows "Function pointer" address ∷ []

-- The first time stamp, the largest leaf of `cpuid`, and the unsigned difference of the other two time stamps.
abbrev pub demo_inline_asm : (tsc max_leaf t0 t1 : ℕ) → List Event
demo_inline_asm tsc max_leaf t0 t1 =
    shows "TSC" tsc
    ∷ shows "max leaf" max_leaf
    ∷ shows "RDTSC overhead" ((t1 + 18446744073709551616 - t0) % 18446744073709551616)
    ∷ []

unfoldable pub main : (frames : ℕ → Frame) → (tsc max_leaf hi0 lo0 hi1 lo1 address : ℕ) → List Event
main frames tsc max_leaf hi0 lo0 hi1 lo1 address =
    demo_calling_convention
    ++ (demo_stack_frame frames 3
        ++ (demo_inline_asm tsc max_leaf (time_stamp hi0 lo0) (time_stamp hi1 lo1)
            ++ (demo_volatile_effect ++ demo_disassembly_hint address)))
