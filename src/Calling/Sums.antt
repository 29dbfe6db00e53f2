-- ===== src/Calling/Sums.antt =====
-- What the loops of labs/lab_03_x86_calling.c compute.
use linux_page_cache_lab.Base.{ℕ, zero, suc, ◌+◌, ◌*◌, ◌≡◌, arith}
use linux_page_cache_lab.Calling.{compute}

twice-compute : (left i sum : ℕ) → 2 * compute left i sum + left ≡ 2 * sum + left * (2 * i + left)
unfolding compute
twice-compute zero i sum = omega arith
twice-compute (suc left) i sum = grind (arith, twice-compute left (i + 1) (sum + i))

-- The loop over i < n adds up to the n-th triangular number: twice it is n * n less n.
pub compute_lem : (n : ℕ) → 2 * compute n 0 0 + n ≡ n * n
compute_lem n = grind (arith, twice-compute n 0 0)
