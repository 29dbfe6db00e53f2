-- ===== src/Paging/TablesClean.antt =====
-- The balance of labs/lab_11_tlb_hugepages.c and labs/lab_13_user_page_tables.c.
use Prim.Native.String.{String}
use linux_page_cache_lab.Base.{ℕ, ◌/◌, Bool, true, false, Option, none, some, [], ◌∷◌, ◌++◌}
use linux_page_cache_lab.Report.{Host, File, says, shows, forks}
use linux_page_cache_lab.Report.Balance.{
  IsClean, goes-IsClean, IsBalanced, append-IsBalanced, none-IsBalanced, reading-IsBalanced,
  show-IsBalanced, plain-IsBalanced, forks-IsPlain, map-IsBalanced,
}
use linux_page_cache_lab.Reports.Clean.{balance}
use linux_page_cache_lab.Paging.Tables.{over_mapping, demo_hugepages, sz}
use linux_page_cache_lab.Paging.Tables

over_mapping-IsBalanced : (mapped : Bool) (size : ℕ) → IsBalanced (over_mapping mapped size)
over_mapping-IsBalanced false size = search balance
over_mapping-IsBalanced true size = map-IsBalanced size none-IsBalanced

hugepages-IsBalanced : (host : Host) (mapped : Bool) → IsBalanced (demo_hugepages host mapped)
hugepages-IsBalanced host mapped = by_file (host.file 0 "/proc/meminfo")
  where
    huge : (b : Bool) → IsBalanced (Tables.huge_page b)
    huge false = search balance
    huge true =
        map-IsBalanced {es = says "Successfully allocated 2MiB huge page" ∷ []} 2097152
          (search balance)

    by_file :
        (o : Option File)
        → IsBalanced
            (elim o [ none ↦ [] | some f ↦ Tables.lines_shown host ++ Tables.huge_page mapped ])
    by_file none = none-IsBalanced
    by_file (some f) = append-IsBalanced (search balance) (huge mapped)

pub huge_labs-IsBalanced :
    (host : Host) (first huge second : Bool) → IsBalanced (Tables.huge_main host first huge second)
unfolding Tables.huge_main
huge_labs-IsBalanced host first huge second = append-IsBalanced (over_mapping-IsBalanced first _) (
    append-IsBalanced (hugepages-IsBalanced host huge)
      (append-IsBalanced (search balance) (over_mapping-IsBalanced second _)))

tables_count-IsBalanced : (o : Option File) (label : String) → IsBalanced (Tables.counted o label)
tables_count-IsBalanced o label =
    append-IsBalanced (reading-IsBalanced o _ none-IsBalanced (λ f. none-IsBalanced))
      (show-IsBalanced _ _ none-IsBalanced)

pub tables-IsClean : (host : Host) → IsClean (Tables.tables_main host true)
unfolding Tables.tables_main
tables-IsClean host = goes-IsClean (
    append-IsBalanced
      (map-IsBalanced {es = shows "MiB" (sz / 1048576) ∷ forks ∷ shows "mem[0]" 170 ∷ []} sz
        (show-IsBalanced _ _ (plain-IsBalanced forks-IsPlain (search balance))))
      (append-IsBalanced (search balance) (
        append-IsBalanced (tables_count-IsBalanced (host.file 0 _) _)
          (plain-IsBalanced forks-IsPlain none-IsBalanced))))
