-- ===== src/Reports/CloudClean.antt =====
-- The balance of the runs of labs 39 and 40.
use Prim.Native.String.{String}
use text.Mathlib.Text.{starts_with}
use linux_page_cache_lab.Base.{ℕ, suc, Bool, true, false, List, Option, none, some, [], ◌∷◌, ◌++◌}
use linux_page_cache_lab.Report.{Event, Host, File, says, shows}
use linux_page_cache_lab.Report.Files.{reading, all_lines}
use linux_page_cache_lab.Report.Balance.{
  IsBalanced, append-IsBalanced, none-IsBalanced, reading-IsBalanced, say-IsBalanced,
  show-IsBalanced, if-IsBalanced, open-IsBalanced, map-IsBalanced,
}
use linux_page_cache_lab.Report.Balance.Files.{all_lines-IsBalanced, value_shown-IsBalanced}
use linux_page_cache_lab.Machine.{read_sysfs_str, sysfs_events}
use linux_page_cache_lab.Reports.Cloud.{
  first_of, namespaces, namespace_lines, cgroup_lines, limit_line, cloud_main, node_path,
  numa_lines, gpu_path, gpu_lines, gpus, sysfs_line, buffer_size, shared_buffer, gpu_main,
  node_numbers,
}
use linux_page_cache_lab.Reports.Clean.{balance}

first_of-IsBalanced :
    (host : Host) (moment : ℕ) (path other : String) {body : File → List Event}
    → ((f : File) → IsBalanced (body f))
    → IsBalanced (first_of host moment path other body)
first_of-IsBalanced host moment path other {body} b = by_file (host.file moment path)
  where
    by_file :
        (o : Option File)
        → IsBalanced (elim o [
          | none ↦ reading (host.file moment other) other [] body
          | some f ↦ reading (some f) path [] body
        ])
    by_file none = reading-IsBalanced (host.file moment other) other none-IsBalanced b
    by_file (some f) = reading-IsBalanced (some f) path none-IsBalanced b

namespaces-IsBalanced :
    (inode : String → Option ℕ) (ns : List String) → IsBalanced (namespace_lines inode ns)
namespaces-IsBalanced inode [] = none-IsBalanced
namespaces-IsBalanced inode (n ∷ ns) = by_inode (inode n) (namespaces-IsBalanced inode ns)
  where
    by_inode :
        (o : Option ℕ)
        → IsBalanced (namespace_lines inode ns)
        → IsBalanced (elim o [
          | none ↦ namespace_lines inode ns
          | some i ↦ shows n i ∷ namespace_lines inode ns
        ])
    by_inode none rest = rest
    by_inode (some i) rest = show-IsBalanced n i rest

cgroup_lines-IsBalanced : (ls : List String) → IsBalanced (cgroup_lines ls)
cgroup_lines-IsBalanced [] = none-IsBalanced
cgroup_lines-IsBalanced (l ∷ ls) =
    let rest = cgroup_lines-IsBalanced ls in
    if-IsBalanced (starts_with l "0::") (say-IsBalanced _ rest) rest

limit_line-IsBalanced :
    (atol : String → String) (ls : List String) → IsBalanced (limit_line atol ls)
limit_line-IsBalanced atol [] = none-IsBalanced
limit_line-IsBalanced atol (l ∷ ls) = search balance depth 6

pub cloud-IsBalanced :
    (atol : String → String) (inode : String → Option ℕ) (host : Host)
    → IsBalanced (cloud_main atol inode host)
unfolding cloud_main
cloud-IsBalanced atol inode host = append-IsBalanced (search balance) (
    append-IsBalanced (first_of-IsBalanced host 0 _ _ (λ f. search balance)) (
      append-IsBalanced (namespaces-IsBalanced inode namespaces) (
        append-IsBalanced (search (balance, cgroup_lines-IsBalanced)) (
          append-IsBalanced
            (first_of-IsBalanced host 1 _ _ (λ f. limit_line-IsBalanced atol f.lines))
            (first_of-IsBalanced host 1 _ _ (λ f. value_shown-IsBalanced _ f.lines))))))

sysfs-IsBalanced : (o : Option File) (path : String) → IsBalanced (sysfs_events o path)
sysfs-IsBalanced o path = reading-IsBalanced o path none-IsBalanced (λ f. none-IsBalanced)

numa-IsBalanced : (host : Host) (ns : List String) → IsBalanced (numa_lines host ns)
numa-IsBalanced host [] = none-IsBalanced
numa-IsBalanced host (n ∷ ns) =
    append-IsBalanced (sysfs-IsBalanced (host.file 0 _) _)
      (by_value (read_sysfs_str (host.file 0 (node_path n))) (numa-IsBalanced host ns))
  where
    by_value :
        (o : Option String)
        → IsBalanced (numa_lines host ns)
        → IsBalanced (elim o [ none ↦ [] | some cpus ↦ says n ∷ says cpus ∷ numa_lines host ns ])
    by_value none rest = none-IsBalanced
    by_value (some cpus) rest = say-IsBalanced n (say-IsBalanced cpus rest)

gpu_lines-IsBalanced :
    (host : Host) (names : List String) (g : ℕ) → IsBalanced (gpu_lines host names g)
gpu_lines-IsBalanced host [] g = none-IsBalanced
gpu_lines-IsBalanced host (name ∷ names) g =
    if-IsBalanced (starts_with name ".") (gpu_lines-IsBalanced host names g) (
      by_file (host.file 0 (gpu_path name)) (gpu_lines-IsBalanced host names g)
        (gpu_lines-IsBalanced host names (suc g)))
  where
    by_file :
        (o : Option File)
        → IsBalanced (gpu_lines host names g)
        → IsBalanced (gpu_lines host names (suc g))
        → IsBalanced (elim o [
          | none ↦ gpu_lines host names g
          | some f ↦
              reading (some f) (gpu_path name) [] (λ h. shows "GPU" g ∷ all_lines h.lines)
              ++ gpu_lines host names (suc g)
        ])
    by_file none missing present = missing
    by_file (some f) missing present =
        append-IsBalanced
          (reading-IsBalanced (some f) (gpu_path name) none-IsBalanced
            (λ h. show-IsBalanced _ g (all_lines-IsBalanced h.lines)))
          present

gpus-IsBalanced : (host : Host) (o : Option (List String)) → IsBalanced (gpus host o)
gpus-IsBalanced host none = say-IsBalanced _ none-IsBalanced
gpus-IsBalanced host (some names) = open-IsBalanced _ (gpu_lines-IsBalanced host names 0)

sysfs_line-IsBalanced :
    (host : Host) (path label : String) → IsBalanced (sysfs_line host path label)
sysfs_line-IsBalanced host path label =
    append-IsBalanced (sysfs-IsBalanced (host.file 0 path) path)
      (by_value (read_sysfs_str (host.file 0 path)))
  where
    by_value :
        (o : Option String)
        → IsBalanced (elim o [ none ↦ [] | some value ↦ says label ∷ says value ∷ [] ])
    by_value none = none-IsBalanced
    by_value (some value) = say-IsBalanced label (say-IsBalanced value none-IsBalanced)

shared_buffer-IsBalanced : (first second : Bool) → IsBalanced (shared_buffer first second)
shared_buffer-IsBalanced false second = none-IsBalanced
shared_buffer-IsBalanced true second = map-IsBalanced buffer_size (
    show-IsBalanced _ _ (
      show-IsBalanced _ _ (
        if-IsBalanced second (map-IsBalanced buffer_size (show-IsBalanced _ _ none-IsBalanced))
          none-IsBalanced)))

pub gpu-IsBalanced :
    (online : ℕ) (names : Option (List String)) (pinned first second : Bool) (host : Host)
    → IsBalanced (gpu_main online names pinned first second host)
unfolding gpu_main
gpu-IsBalanced online names pinned first second host = show-IsBalanced _ online (
    append-IsBalanced (numa-IsBalanced host node_numbers) (
      append-IsBalanced (gpus-IsBalanced host names) (
        append-IsBalanced (search balance) (
          append-IsBalanced (sysfs_line-IsBalanced host _ _) (
            append-IsBalanced (sysfs_line-IsBalanced host _ _)
              (append-IsBalanced (shared_buffer-IsBalanced first second) (search balance)))))))
