-- ===== src/BoundedBuffer/Invariant.antt =====
-- The ring holds the items produced and not yet consumed, in order; sleepers are never forgotten.
use linux_page_cache_lab.Base.{
  ℕ, suc, ◌+◌, ◌≤◌, ◌<◌, ◌≡◌, refl, sym, ◌≢◌, ◌∙◌, arith, true, false, [], ◌∷◌, ◌++◌, some, Star,
  Star-keeps, numbers,
}
use mathlib.Core.Path.{ap₂, subst}
use linux_page_cache_lab.BoundedBuffer.Ring.{Holds, produce-Holds, consume-Holds}
use linux_page_cache_lab.BoundedBuffer.{
  buf_size, n_items, Monitor, produce, waits, closed, consume, Producer, producing, blocked,
  returned, Consumer, consuming, sleeping, ended, System, init, wake, rouse, Signal, nobody, one,
  Act, produce_waits, produces, finishes, consume_waits, consume_ends, consumes, Step, act,
  spurious_producer, spurious_consumer,
}

-- How many items the producer has put into the buffer.
abbrev pub made : Producer → ℕ
made (producing i) = i
made (blocked i) = i
made returned = n_items

consume_waits_when : (m : Monitor) → consume m ≡ waits → (m.count ≡ 0) × (m.done ≡ false)
unfolding consume
consume_waits_when m h = ground arith

consume_closed_when : (m : Monitor) → consume m ≡ closed → (m.count ≡ 0) × (m.done ≡ true)
unfolding consume
consume_closed_when m h = ground arith

rouse_wakes : (c : Consumer) → rouse c ≢ sleeping
rouse_wakes consuming h = cc
rouse_wakes sleeping h = cc
rouse_wakes ended h = cc

rouse-ended : (c : Consumer) → rouse c ≡ ended → c ≡ ended
rouse-ended consuming h = absurd (cc)
rouse-ended sleeping h = absurd (cc)
rouse-ended ended h = refl

pub wake_cases :
    (p : Producer)
    → (made (wake p) ≡ made p)
      × ((i : ℕ) → wake p ≢ blocked i)
      × (wake p ≡ returned → p ≡ returned)
      × (p ≡ returned → wake p ≡ returned)
wake_cases (producing i) = (refl, λ j h. cc, λ h. h, λ h. h)
wake_cases (blocked i) = (refl, λ j h. cc, λ h. absurd (cc), λ h. absurd (cc))
wake_cases returned = (refl, λ j h. cc, λ h. h, λ h. h)

module _ (N : ℕ) where
  pub record Inv (s : System) : Type 0 where
    pub first : ℕ
    pub holds : Holds s.m first
    pub printed : s.log ≡ numbers first
    pub counted : first + s.m.count ≡ made s.p
    pub within : made s.p ≤ n_items
    -- A thread sleeps only while what it waits for has not come.
    pub full : (i : ℕ) → s.p ≡ blocked i → s.m.count ≡ buf_size
    pub starved : ((k : ℕ) → k < N → s.cs k ≡ sleeping) → s.m.count ≡ 0
    pub open_while : (k : ℕ) → s.cs k ≡ sleeping → s.m.done ≡ false
    pub closed_when : (s.m.done ≡ true → s.p ≡ returned) × (s.p ≡ returned → s.m.done ≡ true)
    pub drained : (k : ℕ) → s.cs k ≡ ended → (s.m.done ≡ true) × (s.m.count ≡ 0)

  Signal-sleeping :
      {cs cs' : ℕ → Consumer} (k : ℕ)
      → Signal N cs cs'
      → (cs' k ≡ sleeping → cs k ≡ sleeping) × (cs' k ≡ ended → cs k ≡ ended)
  Signal-sleeping k (nobody none_there) = (λ h. h, λ h. h)
  Signal-sleeping k (one j lt e) = ground arith

  Signal-wakes :
      {cs cs' : ℕ → Consumer} → Signal N cs cs' → 0 < N → ¬ ((k : ℕ) → k < N → cs' k ≡ sleeping)
  Signal-wakes (nobody none_there) lt all = none_there 0 lt (all 0 lt)
  Signal-wakes {cs} (one j below e) lt all = ground (arith, all j below)

  module _ (some_consumer : 0 < N) where
    Act-Inv : (s t : System) → Act N s t → Inv s → Inv t
    unfolding numbers
    Act-Inv s t (produce_waits i e lt full) v = record {
      first = v.first;
      holds = v.holds;
      printed = v.printed;
      counted = ground (arith, v.counted);
      within = ground (arith, v.within);
      full = λ j h. unfold produce in ground arith;
      starved = v.starved;
      open_while = v.open_while;
      closed_when = ground (arith, v.closed_when);
      drained = v.drained;
    }
    Act-Inv s t (produces i {m} {cs} e lt put sig) v =
        let item : i ≡ v.first + s.m.count = ground (arith, v.counted) in
        let (held, grown, same) =
          produce-Holds s.m v.first v.holds (subst (λ x. produce s.m x ≡ some m) item put) in
        record {
          first = v.first;
          holds = held;
          printed = v.printed;
          counted = omega (arith, grown, item);
          within = omega arith;
          full = λ j h. absurd (cc);
          starved = λ all. absurd (Signal-wakes sig some_consumer all);
          open_while = λ k h. same ∙ v.open_while k ((Signal-sleeping k sig).0 h);
          closed_when = ground (arith, v.closed_when, same);
          drained = λ k h. ground (arith, v.closed_when, v.drained k ((Signal-sleeping k sig).1 h));
        }
    Act-Inv s t (finishes e) v = record {
      first = v.first;
      holds = record {
        storage = v.holds.storage;
        fits = v.holds.fits;
        out_in = v.holds.out_in;
        in_at = v.holds.in_at;
        items = v.holds.items;
      };
      printed = v.printed;
      counted = ground (arith, v.counted);
      within = omega arith;
      full = λ j h. absurd (cc);
      starved = λ all. absurd (rouse_wakes (s.cs 0) (all 0 some_consumer));
      open_while = λ k h. absurd (rouse_wakes (s.cs k) h);
      closed_when = ((λ _. refl), (λ _. refl));
      drained = λ k h. ground (arith, v.closed_when, v.drained k (rouse-ended (s.cs k) h));
    }
    Act-Inv s t (consume_waits k lt e empty) v =
        let (none_left, still) = consume_waits_when s.m empty in
        record {
          first = v.first;
          holds = v.holds;
          printed = v.printed;
          counted = v.counted;
          within = v.within;
          full = v.full;
          starved = λ all. none_left;
          open_while = λ j h. still;
          closed_when = v.closed_when;
          drained = λ j h. ground (arith, v.drained j);
        }
    Act-Inv s t (consume_ends k lt e empty) v =
        let (none_left, over) = consume_closed_when s.m empty in
        record {
          first = v.first;
          holds = v.holds;
          printed = v.printed;
          counted = v.counted;
          within = v.within;
          full = v.full;
          starved = λ all. none_left;
          open_while = λ j h. ground (arith, v.open_while j);
          closed_when = v.closed_when;
          drained = λ j h. (over, none_left);
        }
    Act-Inv s t (consumes k val {m} lt e take) v =
        let (held, is_first, shrunk, same) = consume-Holds s.m v.first val v.holds take in
        let (kept, awake, back, forth) = wake_cases s.p in
        record {
          first = suc v.first;
          holds = held;
          printed = ap₂ (λ l x. l ++ (x ∷ [])) v.printed is_first;
          counted = omega (arith, v.counted, kept, shrunk);
          within = omega (arith, v.within, kept);
          full = λ j h. absurd (awake j h);
          starved = λ all. absurd (ground (arith, all k lt));
          open_while = λ j h. same ∙ v.open_while j h;
          closed_when =
              (λ h. forth (v.closed_when.0 (sym same ∙ h)), λ h. same ∙ v.closed_when.1 (back h));
          drained = λ j h. ground (arith, v.drained j h, same, shrunk);
        }

    pub Step-Inv : (s t : System) → Step N s t → Inv s → Inv t
    Step-Inv s t (act a) v = Act-Inv s t a v
    Step-Inv s t spurious_producer v =
        let (kept, awake, back, forth) = wake_cases s.p in
        record {
          first = v.first;
          holds = v.holds;
          printed = v.printed;
          counted = omega (arith, v.counted, kept);
          within = omega (arith, v.within, kept);
          full = λ j h. absurd (awake j h);
          starved = v.starved;
          open_while = v.open_while;
          closed_when = (λ h. forth (v.closed_when.0 h), λ h. v.closed_when.1 (back h));
          drained = v.drained;
        }
    Step-Inv s t (spurious_consumer k) v = record {
      first = v.first;
      holds = v.holds;
      printed = v.printed;
      counted = v.counted;
      within = v.within;
      full = v.full;
      starved = λ all. v.starved (λ j lt. ground (arith, all j lt, rouse_wakes (s.cs k)));
      open_while = λ j h. v.open_while j (ground (arith, rouse_wakes (s.cs k)));
      closed_when = v.closed_when;
      drained = λ j h. v.drained j (ground (arith, rouse-ended (s.cs k)));
    }

    pub Inv-init : Inv init
    unfolding numbers
    Inv-init = record {
      first = 0;
      holds = record {
        storage = refl;
        fits = omega arith;
        out_in = omega arith;
        in_at = refl;
        items = λ j h. absurd (omega arith);
      };
      printed = refl;
      counted = refl;
      within = omega arith;
      full = λ j h. absurd (cc);
      starved = λ all. refl;
      open_while = λ k h. refl;
      closed_when = (λ h. absurd (cc), λ h. absurd (cc));
      drained = λ k h. absurd (cc);
    }

    pub Run-Inv : {s : System} → Star (Step N) init s → Inv s
    Run-Inv r = Star-keeps Inv Step-Inv r Inv-init
