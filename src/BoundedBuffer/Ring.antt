-- ===== src/BoundedBuffer/Ring.antt =====
-- The ring of labs/lab_22_condvar.c: what `produce` and `consume` do to the items in it.
use linux_page_cache_lab.Base.{
  ℕ, suc, ◌+◌, ◌%◌, ◌≤◌, ◌<◌, ◌≡◌, arith, some, length, get_or, length-set, get_or-set_self,
  get_or-set_ne,
}
use linux_page_cache_lab.BoundedBuffer.{Monitor, produce, got, consume}

-- The ring holds `count` items, the first of them item `first`.
pub record Holds (m : Monitor) (first : ℕ) : Type 0 where
  pub storage : length m.buffer ≡ 8
  pub fits : m.count ≤ 8
  pub out_in : m.out_idx < 8
  pub in_at : m.in_idx ≡ (m.out_idx + m.count) % 8
  pub items : (j : ℕ) → j < m.count → get_or m.buffer ((m.out_idx + j) % 8) 0 ≡ first + j

pub produce-Holds :
    (m : Monitor) (first : ℕ) {m' : Monitor}
    → Holds m first
    → produce m (first + m.count) ≡ some m'
    → Holds m' first × (m'.count ≡ m.count + 1) × (m'.done ≡ m.done)
unfolding produce
produce-Holds m first {m'} h e = (
  record {
    storage = ground (arith, length-set m.buffer m.in_idx (first + m.count), h.storage);
    fits = ground (arith, h.fits);
    out_in = ground (arith, h.out_in);
    in_at = ground (arith, h.in_at, h.out_in);
    items = λ j lt. ground (
      arith,
      h.items j,
      h.in_at,
      h.out_in,
      h.storage,
      get_or-set_self m.buffer m.in_idx (first + m.count) 0,
      get_or-set_ne m.buffer m.in_idx ((m.out_idx + j) % 8) (first + m.count) 0,
    );
  },
  ground arith,
  ground arith,
)

pub consume-Holds :
    (m : Monitor) (first val : ℕ) {m' : Monitor}
    → Holds m first
    → consume m ≡ got val m'
    → Holds m' (suc first) × (val ≡ first) × (m'.count + 1 ≡ m.count) × (m'.done ≡ m.done)
unfolding consume
consume-Holds m first val {m'} h e = (
  record {
    storage = ground (arith, h.storage);
    fits = ground (arith, h.fits);
    out_in = ground (arith, h.out_in);
    in_at = ground (arith, h.in_at, h.out_in);
    items = λ j lt.
        let next_slot : ((m.out_idx + 1) % 8 + j) % 8 ≡ (m.out_idx + (j + 1)) % 8 = omega arith in
        ground (arith, h.items (j + 1), next_slot);
  },
  (let first_slot : (m.out_idx + 0) % 8 ≡ m.out_idx = omega (arith, h.out_in) in
      ground (arith, h.items 0, first_slot)),
  ground arith,
  ground arith,
)
