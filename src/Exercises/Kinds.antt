-- ===== src/Exercises/Kinds.antt =====
-- Exercise 4 of labs/process_memory_exercises.c: three mappings, given back in another order.
use Prim.Native.String.{String}
use linux_page_cache_lab.Base.{
  ℕ, ◌+◌, ◌≡◌, refl, arith, Bool, true, false, Option, none, some, List, [], ◌∷◌, ◌++◌,
  if◌then◌else◌,
}
use linux_page_cache_lab.Report.{Event, opens, closes, maps, dies, Host}
use linux_page_cache_lab.Report.Balance.{
  gain, loss, tally, tally-append, IsBalanced, balanced, none-IsBalanced, reading-IsBalanced,
  IsClean, goes-IsClean,
}
use linux_page_cache_lab.Report.Balance.Files.{select_lines-IsBalanced}
use linux_page_cache_lab.Exercises.Memory.{
  mapped, unmapped, file_address, mmap_types_start, ex_mmap_types,
}

module _ (a x r u0 uf u2 : List Event) (e : Event) where
  spread :
      (w : Event → ℕ)
      → tally w ((a ++ x) ++ (e ∷ (r ++ (u0 ++ (uf ++ u2)))))
        ≡ tally w (a ++ u0) + tally w (x ++ uf) + tally w (e ∷ u2) + tally w r
  unfolding tally
  spread w = omega (
    arith,
    tally-append w (a ++ x) (e ∷ (r ++ (u0 ++ (uf ++ u2)))),
    tally-append w a x,
    tally-append w r (u0 ++ (uf ++ u2)),
    tally-append w u0 (uf ++ u2),
    tally-append w uf u2,
    tally-append w a u0,
    tally-append w x uf,
  )

  spread-IsBalanced :
      IsBalanced (a ++ u0)
      → IsBalanced (x ++ uf)
      → IsBalanced (e ∷ u2)
      → IsBalanced r
      → IsBalanced ((a ++ x) ++ (e ∷ (r ++ (u0 ++ (uf ++ u2)))))
  spread-IsBalanced p q s t = record {
    each = λ k.
        omega (arith, spread (gain k), spread (loss k), p.each k, q.each k, s.each k, t.each k);
  }

mapping-IsBalanced : (o : Option String) → IsBalanced (mapped o ++ unmapped o)
unfolding gain loss tally
mapping-IsBalanced none = balanced (λ p. refl) (λ n. omega arith) refl
mapping-IsBalanced (some a) = balanced (λ p. refl) (λ n. omega arith) refl

exe-IsBalanced :
    (b : Bool) (o : Option String)
    → IsBalanced (
        (if b
          then opens "/proc/self/exe"
            ∷ (mapped (if b then o else none) ++ (closes "/proc/self/exe" ∷ []))
          else [])
        ++ unmapped (if b then o else none))
unfolding gain loss tally
exe-IsBalanced true none = balanced (λ p. omega arith) (λ n. omega arith) refl
exe-IsBalanced true (some a) = balanced (λ p. omega arith) (λ n. omega arith) refl
exe-IsBalanced false o = balanced (λ p. refl) (λ n. omega arith) refl

shared-IsBalanced :
    (o : Option String) (a : String) → o ≡ some a → IsBalanced (maps 4096 ∷ unmapped o)
unfolding gain loss tally
shared-IsBalanced none a e = absurd (cc)
shared-IsBalanced (some b) a e = balanced (λ p. refl) (λ n. omega arith) refl

pub mmap_types_dies :
    (host : Host) → host.address 2 ≡ none → ex_mmap_types host ≡ dies (mmap_types_start host)
mmap_types_dies host e = rw (e, ex_mmap_types) refl

pub mmap_types-IsClean :
    (host : Host) (a : String) → host.address 2 ≡ some a → IsClean (ex_mmap_types host)
mmap_types-IsClean host a e =
    rw (e, ex_mmap_types)
      (goes-IsClean (
        spread-IsBalanced (mapped (host.address 0)) _ _ (unmapped (host.address 0))
          (unmapped (file_address host)) (unmapped (host.address 2)) (maps 4096)
          (mapping-IsBalanced (host.address 0)) (exe-IsBalanced host.opens_exe (host.address 1))
          (shared-IsBalanced (host.address 2) a e)
          (reading-IsBalanced (host.file 0 _) _ none-IsBalanced
            (λ f. select_lines-IsBalanced _ f.lines))))
