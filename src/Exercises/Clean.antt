-- ===== src/Exercises/Clean.antt =====
-- What the exercises of labs/process_memory_exercises.c give back.
use Prim.Native.String.{String}
use mathlib.Core.List.{append_assoc}
use linux_page_cache_lab.Base.{
  ℕ, ◌≡◌, ◌∙◌, sym, ap, false, none, Option-cases, List, [], ◌∷◌, ◌++◌, inl, inr,
}
use linux_page_cache_lab.Report.{Event, says, shows, dies, Host}
use linux_page_cache_lab.Report.Balance.{
  IsBalanced, append-IsBalanced, none-IsBalanced, plain-IsBalanced, says-IsPlain, shows-IsPlain,
  map-IsBalanced, reading-IsBalanced, IsClean, goes-IsClean,
}
use linux_page_cache_lab.Report.Balance.Files.{
  select_lines-IsBalanced, window-IsBalanced, print_proc_file-IsBalanced,
  print_status_field-IsBalanced,
}
use linux_page_cache_lab.Report.Files.{print_status_field}
use linux_page_cache_lab.Exercises.Proc.{ex_task_struct}
use linux_page_cache_lab.Exercises.Memory.{
  ex_mm_struct, lifecycle_report, ex_page_fault_lifecycle, mmap_types_start, faults_size, maps_size,
}
use linux_page_cache_lab.Exercises.Kinds.{mmap_types_dies}
use linux_page_cache_lab.Exercises.{main}

say : (text : String) → IsBalanced (says text ∷ [])
say text = plain-IsBalanced (says-IsPlain text) none-IsBalanced

task_struct-IsClean : (host : Host) → IsClean (ex_task_struct host)
task_struct-IsClean host =
    goes-IsClean
      (reading-IsBalanced (host.file 0 _) _ (say _) (λ f. select_lines-IsBalanced _ f.lines))

mm_struct-IsClean : (host : Host) → IsClean (ex_mm_struct host)
mm_struct-IsClean host = elim (Option-cases (host.address 0)) [
  | inl e ↦ rw (e, ex_mm_struct) (goes-IsClean (say _))
  | inr (a, e) ↦
      rw (e, ex_mm_struct)
        (goes-IsClean (
          map-IsBalanced maps_size (
            append-IsBalanced (print_proc_file-IsBalanced (host.file 0 _) _ 25) (
              reading-IsBalanced (host.file 1 _) _ none-IsBalanced
                (λ f. window-IsBalanced a f.lines false 18)))))
]

lifecycle_report-IsBalanced : (host : Host) → IsBalanced (lifecycle_report host)
lifecycle_report-IsBalanced host = number (
    number (
      status 0 (
        number (
          number (
            status 1 (
              number (
                number (
                  status 2
                    (number (status 3 (print_status_field-IsBalanced host 4 "VmRSS")))))))))))
  where
    number :
        {label : String} {n : ℕ} {es : List Event} → IsBalanced es → IsBalanced (shows label n ∷ es)
    number p = plain-IsBalanced (shows-IsPlain _ _) p

    status :
        (moment : ℕ) {es : List Event}
        → IsBalanced es
        → IsBalanced (print_status_field host moment "VmRSS" ++ es)
    status moment p = append-IsBalanced (print_status_field-IsBalanced host moment "VmRSS") p

lifecycle-IsClean : (host : Host) → IsClean (ex_page_fault_lifecycle host)
lifecycle-IsClean host = elim (Option-cases (host.address 0)) [
  | inl e ↦ rw (e, ex_page_fault_lifecycle) (goes-IsClean (say _))
  | inr (a, e) ↦
      rw (e, ex_page_fault_lifecycle)
        (goes-IsClean (map-IsBalanced faults_size (lifecycle_report-IsBalanced host)))
]

regroup : (a b c d : List Event) → a ++ (b ++ (c ++ d)) ≡ (a ++ (b ++ c)) ++ d
regroup a b c d = ap (λ t. a ++ t) (sym (append_assoc b c d)) ∙ sym (append_assoc a (b ++ c) d)

-- If the shared mapping of exercise 4 fails, the write through it ends the program there, with the other
-- mappings still in place, though the code after the write tests for that failure.
pub shared_mapping_failure :
    (hosts : ℕ → Host)
    → (hosts 4).address 2 ≡ none
    → (es : List Event) × (main hosts ≡ dies (es ++ mmap_types_start (hosts 4)))
unfolding main
shared_mapping_failure hosts e =
    let p1 = task_struct-IsClean (hosts 1) in
    let p2 = mm_struct-IsClean (hosts 2) in
    let p3 = lifecycle-IsClean (hosts 3) in
    (
      p1.events ++ (p2.events ++ p3.events),
      rw (p1.goes_on, p2.goes_on, p3.goes_on, mmap_types_dies (hosts 4) e)
          (ap dies (regroup p1.events p2.events p3.events (mmap_types_start (hosts 4)))),
    )
