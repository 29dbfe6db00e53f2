-- ===== src/AddressSpace/Clean.antt =====
-- The balance of the run of labs/lab_01_threads_addr_fs.c.
use Prim.Native.String.{String}
use linux_page_cache_lab.Base.{ℕ, Option, none, some, Option-cases, inl, inr, List, [], ◌∷◌, leb}
use linux_page_cache_lab.Report.{Event, says, shows, Host}
use linux_page_cache_lab.Report.Balance.{
  IsBalanced, append-IsBalanced, none-IsBalanced, plain-IsBalanced, says-IsPlain, shows-IsPlain,
  forks-IsPlain, reading-IsBalanced, if-IsBalanced,
}
use linux_page_cache_lab.Report.Balance.Files.{first_lines-IsBalanced}
use linux_page_cache_lab.AddressSpace.{
  count_lines, print_counted, DeviceKind, device_line, device_lines, interesting, limit_shown,
  Counts, counts_shown, demo_count_vma_regions, main,
}

say : (text : String) → IsBalanced (says text ∷ [])
say text = plain-IsBalanced (says-IsPlain text) none-IsBalanced

number :
    {label : String} {n : ℕ} {es : List Event} → IsBalanced es → IsBalanced (shows label n ∷ es)
number p = plain-IsBalanced (shows-IsPlain _ _) p

pub print_counted-IsBalanced : (ls : List String) (max : ℕ) → IsBalanced (print_counted ls max)
print_counted-IsBalanced ls max =
    append-IsBalanced (first_lines-IsBalanced ls max)
      (if-IsBalanced (leb max (count_lines ls max)) (say _) none-IsBalanced)

device_line-IsBalanced :
    (o : Option (DeviceKind × ℕ)) (path : String) → IsBalanced (device_line o path)
device_line-IsBalanced none path = none-IsBalanced
device_line-IsBalanced (some (kind, rdev)) path =
    plain-IsBalanced (says-IsPlain path)
      (plain-IsBalanced (says-IsPlain _) (number (number none-IsBalanced)))

device_lines-IsBalanced :
    (stat : String → Option (DeviceKind × ℕ)) (paths : List String)
    → IsBalanced (device_lines stat paths)
device_lines-IsBalanced stat [] = none-IsBalanced
device_lines-IsBalanced stat (path ∷ paths) =
    append-IsBalanced (device_line-IsBalanced (stat path) path) (device_lines-IsBalanced stat paths)

limit_shown-IsBalanced : (ls : List String) → IsBalanced (limit_shown ls)
limit_shown-IsBalanced [] = none-IsBalanced
limit_shown-IsBalanced (l ∷ ls) = say _

counts_shown-IsBalanced : (c : Counts) → IsBalanced (counts_shown c)
counts_shown-IsBalanced c =
    number (number (number (number (number (number (number (number none-IsBalanced)))))))

regions-IsBalanced : (host : Host) → IsBalanced (demo_count_vma_regions host)
regions-IsBalanced host = elim (Option-cases (host.file 1 "/proc/self/maps")) [
  | inl e ↦ rw (e, demo_count_vma_regions) (say _)
  | inr (f, e) ↦
      rw (e, demo_count_vma_regions)
        (append-IsBalanced (reading-IsBalanced (some f) _ none-IsBalanced (λ g. none-IsBalanced)) (
          append-IsBalanced (counts_shown-IsBalanced _) (
            reading-IsBalanced (host.file 2 _) _ none-IsBalanced
              (λ g. limit_shown-IsBalanced g.lines))))
]

pub lab_01-IsBalanced :
    (shared_global : ℕ) (host : Host) (stat : String → Option (DeviceKind × ℕ))
    → IsBalanced (main shared_global host stat)
unfolding main
lab_01-IsBalanced shared_global host stat =
    append-IsBalanced (number (plain-IsBalanced forks-IsPlain (number none-IsBalanced))) (
      append-IsBalanced
        (reading-IsBalanced (host.file 0 _) _ (say _) (λ f. print_counted-IsBalanced f.lines 20))
        (append-IsBalanced (device_lines-IsBalanced stat interesting) (regions-IsBalanced host)))
