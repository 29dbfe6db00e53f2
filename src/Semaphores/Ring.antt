-- ===== src/Semaphores/Ring.antt =====
-- The ring of labs/lab_23_mpmc_semaphore.c: what the two sections do to the items in it.
use linux_page_cache_lab.Base.{
  ℕ, ◌+◌, ◌%◌, ◌≤◌, ◌<◌, ◌≡◌, sym, ◌∙◌, ap, arith, length, get_or, set, length-set, get_or-set_self,
  get_or-set_ne, ℕ_discrete,
}
use linux_page_cache_lab.Semaphores.{Shared, put, take, taken}

-- The buffer holds the items from `total_consumed` up to `total_produced`.
pub record Holds (sh : Shared) : Type 0 where
  pub storage : length sh.buffer ≡ 5
  pub order : sh.total_consumed ≤ sh.total_produced
  pub fits : sh.total_produced ≤ sh.total_consumed + 5
  pub in_at : sh.in_i ≡ sh.total_produced % 5
  pub out_at : sh.out_i ≡ sh.total_consumed % 5
  pub items :
      (j : ℕ) → sh.total_consumed ≤ j → j < sh.total_produced → get_or sh.buffer (j % 5) 0 ≡ j

pub put-Holds :
    (sh : Shared) → Holds sh → sh.total_produced < sh.total_consumed + 5 → Holds (put sh)
unfolding put
put-Holds sh h room = record {
  storage = length-set sh.buffer sh.in_i sh.total_produced ∙ h.storage;
  order = omega (arith, h.order);
  fits = omega (arith, room);
  in_at = omega (arith, h.in_at);
  out_at = h.out_at;
  items = λ j from below. elim (ℕ_discrete j sh.total_produced) [
    | yes new ↦
        ap (λ k. get_or (set sh.buffer sh.in_i sh.total_produced) k 0) (omega (arith, h.in_at))
        ∙ get_or-set_self sh.buffer sh.in_i sh.total_produced 0 (omega (arith, h.in_at, h.storage))
        ∙ sym new
    | no old ↦
        get_or-set_ne sh.buffer sh.in_i (j % 5) sh.total_produced 0
          (λ e. omega (arith, h.in_at, room, e))
        ∙ h.items j from (omega arith)
  ];
}

pub take-Holds :
    (sh : Shared)
    → Holds sh
    → sh.total_consumed < sh.total_produced
    → Holds (take sh) × (taken sh ≡ sh.total_consumed)
unfolding take
take-Holds sh h some_item = (
  record {
    storage = h.storage;
    order = omega arith;
    fits = omega (arith, h.fits);
    in_at = h.in_at;
    out_at = omega (arith, h.out_at);
    items = λ j from below. h.items j (omega arith) below;
  },
  ap (λ k. get_or sh.buffer k 0) h.out_at ∙ h.items sh.total_consumed (omega arith) some_item,
)
