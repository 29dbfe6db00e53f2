-- ===== src/Storage/Copy.antt =====
-- labs/lab_31_fs_ops.c: the writes of its phase 1, and the copy of a file in its phase 4. A file is the list of its bytes.
pub mod Copied
use Prim.Native.String.{String}
use linux_page_cache_lab.Base.{
  ℕ, zero, suc, ◌+◌, ◌-◌, ◌*◌, ◌/◌, ◌%◌, ◌≤◌, Bool, true, false, Option, none, some, List, [], ◌∷◌,
  ◌++◌, length, replicate, if◌then◌else◌, leb, ◌==◌,
}
use linux_page_cache_lab.Report.{Event, opens, closes, says, shows}

abbrev pub take : ℕ → List ℕ → List ℕ
take zero xs = []
take (suc n) [] = []
take (suc n) (x ∷ xs) = x ∷ take n xs

abbrev pub drop : ℕ → List ℕ → List ℕ
drop zero xs = xs
drop (suc n) [] = []
drop (suc n) (x ∷ xs) = drop n xs

-- What the kernel answers: `read (position) (asked)` gives at most that many bytes, `none` is an error and 0 the
-- end of the file; `write (position) (asked)` is how many bytes it takes, `none` an error.
pub record Kernel : Type 0 where
  pub read : (pos asked : ℕ) → Option ℕ
  pub write : (pos asked : ℕ) → Option ℕ

-- `sizeof(fbuf)`.
abbrev pub buf_size : ℕ
buf_size = 65536

abbrev pub at_most : ℕ → ℕ → ℕ
at_most limit n = if leb n limit then n else limit

-- The bytes that `write(dfd, chunk, nr)` adds to the file. Its result is not looked at.
abbrev pub written : Option ℕ → List ℕ → List ℕ
written none chunk = []
written (some n) chunk = take n chunk

-- `while ((nr = read(sfd, fbuf, sizeof(fbuf))) > 0) write(dfd, fbuf, nr)` on what is left of the source from `pos` on,
-- and what the copy holds. No file gives more bytes than it has left. `none` is no more fuel.
unfoldable pub copy : Kernel → (fuel pos : ℕ) → (left dst : List ℕ) → Option (List ℕ)
copy k zero pos left dst = none
copy k (suc fuel) pos left dst = elim (k.read pos buf_size) [
  | none ↦ some dst
  | some n ↦
      let nr = at_most (length left) (at_most buf_size n) in
      elim (nr == 0) [
        | true ↦ some dst
        | false ↦
            copy k fuel (pos + nr) (drop nr left)
              (dst ++ written (k.write (length dst) nr) (take nr left))
      ]
]

-- `n` times `write(fd, buf, sizeof buf)` from a buffer that a `memset` has filled.
unfoldable pub fill : Kernel → (rounds size value : ℕ) → List ℕ → List ℕ
fill k zero size value file = file
fill k (suc rounds) size value file =
    fill k rounds size value (file ++ written (k.write (length file) size) (replicate size value))

-- The file of phase 1.
abbrev pub test_file : Kernel → List ℕ
test_file k = fill k 1000 4096 65 []

-- 8 MiB, written in blocks of `buf_size`.
abbrev pub source : Kernel → List ℕ
source k = fill k (8388608 / buf_size) buf_size 204 []

abbrev pub when : Bool → List Event → List Event
when true es = es
when false es = []

-- Whether `open` and the two calls of `mkstemp` succeed is given; the size shown is that of the source.
unfoldable pub main : Kernel → (opened sfd dfd : Bool) → List Event
main k opened sfd dfd =
    when opened (opens "/tmp/lab31_test.dat" ∷ closes "/tmp/lab31_test.dat" ∷ [])
    ++ (says "unlink"
        ∷ (when sfd (opens "/tmp/lab31_srcXXXXXX" ∷ [])
            ++ (when dfd (opens "/tmp/lab31_dstXXXXXX" ∷ [])
                ++ ((if sfd then when dfd (shows "st_size" (length (source k)) ∷ []) else [])
                    ++ (when sfd (closes "/tmp/lab31_srcXXXXXX" ∷ says "unlink" ∷ [])
                        ++ when dfd (closes "/tmp/lab31_dstXXXXXX" ∷ says "unlink" ∷ []))))))
