-- ===== src/Machine/Clean.antt =====
-- The balance of the run of labs/lab_02_pc_arch.c.
use Prim.Native.String.{String}
use text.Mathlib.Text.{starts_with}
use linux_page_cache_lab.Base.{ℕ, Bool, Option, none, some, List, [], ◌∷◌, ◌++◌, ◌==◌, leb}
use linux_page_cache_lab.Report.{Event, says, File, Host}
use linux_page_cache_lab.Report.Balance.{
  IsBalanced, append-IsBalanced, none-IsBalanced, plain-IsBalanced, line-IsPlain, says-IsPlain,
  shows-IsPlain, reading-IsBalanced, if-IsBalanced,
}
use linux_page_cache_lab.Report.Balance.Files.{select_lines-IsBalanced}
use linux_page_cache_lab.Report.Files.{starts_with_any}
use linux_page_cache_lab.AddressSpace.Clean.{print_counted-IsBalanced}
use linux_page_cache_lab.Machine.{
  Registers, sysfs_events, read_sysfs_str, yes_no, demo_cpuid, cache_path, cache_line, cache_lines,
  cache_indices, node_path, node_line, node_lines, numa_nodes, digits, siblings, thread_siblings,
  core_siblings, demo_topology, cpuinfo_keys, cpuinfo_lines, main,
}

say : (text : String) {es : List Event} → IsBalanced es → IsBalanced (says text ∷ es)
say text p = plain-IsBalanced (says-IsPlain text) p

sysfs-IsBalanced : (o : Option File) (path : String) → IsBalanced (sysfs_events o path)
sysfs-IsBalanced o path = reading-IsBalanced o path none-IsBalanced (λ f. none-IsBalanced)

yes_no-IsBalanced : (label : String) (b : Bool) → IsBalanced (yes_no label b)
yes_no-IsBalanced label b = say label (say _ none-IsBalanced)

cpuid-IsBalanced :
    (cpuid : ℕ → Registers) (as_text : List ℕ → String) → IsBalanced (demo_cpuid cpuid as_text)
cpuid-IsBalanced cpuid as_text = say _ (
    plain-IsBalanced (shows-IsPlain _ _) (
      append-IsBalanced (if-IsBalanced (leb 2147483652 _) (say _ none-IsBalanced) none-IsBalanced) (
        append-IsBalanced (yes_no-IsBalanced _ _) (
          append-IsBalanced (yes_no-IsBalanced _ _) (
            append-IsBalanced (yes_no-IsBalanced _ _) (
              append-IsBalanced (yes_no-IsBalanced _ _)
                (append-IsBalanced (yes_no-IsBalanced _ _) (yes_no-IsBalanced _ _))))))))

cache_line-IsBalanced :
    (atol : String → String) (host : Host) (index type : String)
    → IsBalanced (cache_line atol host index type)
cache_line-IsBalanced atol host index type =
    append-IsBalanced (sysfs-IsBalanced (host.file 1 _) _) (
      append-IsBalanced (sysfs-IsBalanced (host.file 2 _) _) (
        append-IsBalanced (sysfs-IsBalanced (host.file 3 _) _) (
          append-IsBalanced (sysfs-IsBalanced (host.file 4 _) _)
            (say _ (say _ (say _ (say _ (say _ none-IsBalanced))))))))

cache_lines-IsBalanced :
    (atol : String → String) (host : Host) (indices : List String)
    → IsBalanced (cache_lines atol host indices)
cache_lines-IsBalanced atol host [] = none-IsBalanced
cache_lines-IsBalanced atol host (index ∷ indices) =
    append-IsBalanced (sysfs-IsBalanced (host.file 0 _) _) (
      typed (read_sysfs_str (host.file 0 (cache_path index "type")))
        (cache_lines-IsBalanced atol host indices))
  where
    typed :
        (o : Option String)
        → IsBalanced (cache_lines atol host indices)
        → IsBalanced (elim o [
          | none ↦ []
          | some type ↦ cache_line atol host index type ++ cache_lines atol host indices
        ])
    typed none rest = none-IsBalanced
    typed (some type) rest = append-IsBalanced (cache_line-IsBalanced atol host index type) rest

node_lines-IsBalanced : (host : Host) (ns : List String) → IsBalanced (node_lines host ns)
node_lines-IsBalanced host [] = none-IsBalanced
node_lines-IsBalanced host (n ∷ ns) = append-IsBalanced (sysfs-IsBalanced (host.file 0 _) _) (
    append-IsBalanced (node (read_sysfs_str (host.file 0 (node_path n))))
      (node_lines-IsBalanced host ns))
  where
    node : (o : Option String) → IsBalanced (node_line n o)
    node none = none-IsBalanced
    node (some cpus) = say n (say cpus none-IsBalanced)

siblings-IsBalanced : (host : Host) (path : String) → IsBalanced (siblings host path)
siblings-IsBalanced host path =
    append-IsBalanced (sysfs-IsBalanced (host.file 1 path) path)
      (listed (read_sysfs_str (host.file 1 path)))
  where
    listed : (o : Option String) → IsBalanced (elim o [ none ↦ [] | some cpus ↦ says cpus ∷ [] ])
    listed none = none-IsBalanced
    listed (some cpus) = say cpus none-IsBalanced

topology-IsBalanced :
    (configured online : ℕ) (host : Host) → IsBalanced (demo_topology configured online host)
topology-IsBalanced configured online host = plain-IsBalanced (shows-IsPlain _ _) (
    plain-IsBalanced (shows-IsPlain _ _) (
      append-IsBalanced (node_lines-IsBalanced host digits) (
        append-IsBalanced
          (if-IsBalanced (numa_nodes host digits == 0) (say _ none-IsBalanced) none-IsBalanced)
          (append-IsBalanced (siblings-IsBalanced host thread_siblings)
            (siblings-IsBalanced host core_siblings)))))

cpuinfo_lines-IsBalanced : (ls : List String) (blanks : ℕ) → IsBalanced (cpuinfo_lines ls blanks)
unfolding cpuinfo_lines
cpuinfo_lines-IsBalanced [] blanks = none-IsBalanced
cpuinfo_lines-IsBalanced (l ∷ ls) blanks =
    let rest = cpuinfo_lines-IsBalanced ls _ in
    if-IsBalanced (starts_with l "\n") (if-IsBalanced (leb 2 _) none-IsBalanced rest)
      (if-IsBalanced (starts_with_any cpuinfo_keys l) (plain-IsBalanced (line-IsPlain l) rest) rest)

pub lab_02-IsBalanced :
    (cpuid : ℕ → Registers) (as_text : List ℕ → String) (atol : String → String)
    (configured online : ℕ) (hosts : ℕ → Host)
    → IsBalanced (main cpuid as_text atol configured online hosts)
unfolding main
lab_02-IsBalanced cpuid as_text atol configured online hosts =
    append-IsBalanced (cpuid-IsBalanced cpuid as_text) (
      append-IsBalanced (cache_lines-IsBalanced atol (hosts 2) cache_indices) (
        append-IsBalanced (topology-IsBalanced configured online (hosts 3)) (
          append-IsBalanced
            (reading-IsBalanced ((hosts 4).file 0 _) _ (say _ none-IsBalanced)
              (λ f. select_lines-IsBalanced _ f.lines))
            (append-IsBalanced
              (reading-IsBalanced ((hosts 5).file 0 _) _ (say _ none-IsBalanced)
                (λ f. print_counted-IsBalanced f.lines 30))
              (reading-IsBalanced ((hosts 6).file 0 _) _ (say _ none-IsBalanced)
                (λ f. cpuinfo_lines-IsBalanced f.lines 0))))))
