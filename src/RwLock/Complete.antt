-- ===== src/RwLock/Complete.antt =====
-- All readers and writers of phase 1 of labs/lab_21_lock_variations.c return.
use mathlib.Core.Path.{subst}
use linux_page_cache_lab.Base.{
  total-replace, ℕ, ◌+◌, ◌-◌, ◌*◌, ◌≤◌, ◌<◌, ◌≡◌, refl, ap, arith, false, update_all, total,
  total_const, total_pos, le-total, dec_lt, Star, here, next, Star-keeps, steps, ◌⊎◌, inl, inr,
}
use linux_page_cache_lab.RwLock.{
  Reader, Writer, System, init, Step, rdlock, rdunlock, wrlock, load, store_unlock, reads_now,
  writes_now,
}
use linux_page_cache_lab.RwLock.Exclusion.{Inv, reached-Inv, writes_exact}

module _ (reads writes : ℕ) where
  -- The steps that a reader or a writer has still to take.
  abbrev reader_left : Reader → ℕ
  reader_left (Reader.out i s) = 2 * (reads - i)
  reader_left (Reader.reading i s) = 2 * (reads - i) - 1

  abbrev writer_left : Writer → ℕ
  writer_left (Writer.out i) = 3 * (writes - i)
  writer_left (Writer.locked i) = 3 * (writes - i) - 1
  writer_left (Writer.loaded i value) = 3 * (writes - i) - 2

  abbrev ReaderWithin : Reader → Type 0
  ReaderWithin (Reader.out i s) = i ≤ reads
  ReaderWithin (Reader.reading i s) = i < reads

  abbrev WriterWithin : Writer → Type 0
  WriterWithin (Writer.out i) = i ≤ writes
  WriterWithin (Writer.locked i) = i < writes
  WriterWithin (Writer.loaded i value) = i < writes

  record Within (s : System) : Type 0 where
    readers : (t : ℕ) → ReaderWithin (s.readers t)
    writers : (t : ℕ) → WriterWithin (s.writers t)

  module _ (R W : ℕ) where
    Step-Within : (s u : System) → Step R W reads writes s u → Within s → Within u
    Step-Within s u (rdlock t i sum inside more e free) w = record {
      readers = update_all ReaderWithin s.readers t (Reader.reading i sum) w.readers more;
      writers = w.writers;
    }
    Step-Within s u (rdunlock t i sum inside e) w =
        let h = subst ReaderWithin e (w.readers t) in
        record {
          readers =
              update_all ReaderWithin s.readers t (Reader.out (i + 1) (sum + s.shared_data))
                w.readers (omega (arith, h));
          writers = w.writers;
        }
    Step-Within s u (wrlock t i inside more e free none_in) w = record {
      readers = w.readers;
      writers = update_all WriterWithin s.writers t (Writer.locked i) w.writers more;
    }
    Step-Within s u (load t i inside e) w = record {
      readers = w.readers;
      writers =
          update_all WriterWithin s.writers t (Writer.loaded i s.shared_data) w.writers
            (subst WriterWithin e (w.writers t));
    }
    Step-Within s u (store_unlock t i value inside e) w =
        let h = subst WriterWithin e (w.writers t) in
        record {
          readers = w.readers;
          writers =
              update_all WriterWithin s.writers t (Writer.out (i + 1)) w.writers (omega (arith, h));
        }

    Run-Within : {s : System} → Star (Step R W reads writes) init s → Within s
    Run-Within r =
        Star-keeps Within Step-Within r
          (record { readers = λ t. omega arith; writers = λ t. omega arith })

    left : System → ℕ
    left s = total reader_left R s.readers + total writer_left W s.writers

    Step-left : (s u : System) → Step R W reads writes s u → Within s → left u < left s
    unfolding left
    Step-left s u (rdlock t i sum inside more e free) w =
        omega (arith, total-replace reader_left R s.readers t (Reader.reading i sum) inside e)
    Step-left s u (rdunlock t i sum inside e) w =
        let h = subst ReaderWithin e (w.readers t) in
        omega (
          arith,
          total-replace reader_left R s.readers t (Reader.out (i + 1) (sum + s.shared_data)) inside
              e,
        )
    Step-left s u (wrlock t i inside more e free none_in) w =
        omega (arith, total-replace writer_left W s.writers t (Writer.locked i) inside e)
    Step-left s u (load t i inside e) w =
        let h = subst WriterWithin e (w.writers t) in
        omega
          (arith, total-replace writer_left W s.writers t (Writer.loaded i s.shared_data) inside e)
    Step-left s u (store_unlock t i value inside e) w =
        let h = subst WriterWithin e (w.writers t) in
        omega (arith, total-replace writer_left W s.writers t (Writer.out (i + 1)) inside e)

    steps_bound :
        {s : System} (r : Star (Step R W reads writes) init s)
        → steps r + left s ≤ R * (2 * reads) + W * (3 * writes)
    unfolding steps left
    steps_bound here = omega (
      arith,
      total_const reader_left R (2 * reads) init.readers (λ t h. omega arith),
      total_const writer_left W (3 * writes) init.writers (λ t h. omega arith),
    )
    steps_bound (next {t = s} r st) = omega (arith, steps_bound r, Step-left s _ st (Run-Within r))

    -- All threads have left their loops.
    pub record Joined (s : System) : Type 0 where
      pub readers_done : (t : ℕ) → t < R → (sum : ℕ) × (s.readers t ≡ Reader.out reads sum)
      pub writers_done : (t : ℕ) → t < W → s.writers t ≡ Writer.out writes

    reader_done :
        (r : Reader) → ReaderWithin r → reader_left r ≡ 0 → (sum : ℕ) × (r ≡ Reader.out reads sum)
    reader_done (Reader.out i s) w e = (s, ap (λ k. Reader.out k s) (omega (arith, w)))
    reader_done (Reader.reading i s) w e = absurd (omega (arith, w))

    writer_done : (v : Writer) → WriterWithin v → writer_left v ≡ 0 → v ≡ Writer.out writes
    writer_done (Writer.out i) w e = ap Writer.out (omega (arith, w))
    writer_done (Writer.locked i) w e = absurd (omega (arith, w))
    writer_done (Writer.loaded i value) w e = absurd (omega (arith, w))

    reader_leaves :
        (s : System) (t : ℕ) (r : Reader)
        → t < R
        → s.readers t ≡ r
        → 0 < reads_now r
        → (u : System) × Step R W reads writes s u
    reader_leaves s t (Reader.out i sum) lt e h = absurd (omega arith)
    reader_leaves s t (Reader.reading i sum) lt e h = (_, rdunlock t i sum lt e)

    reader_enters :
        (s : System) (t : ℕ) (r : Reader)
        → t < R
        → s.readers t ≡ r
        → 0 < reader_left r
        → s.writing ≡ false
        → (u : System) × Step R W reads writes s u
    reader_enters s t (Reader.out i sum) lt e h free = (_, rdlock t i sum lt (omega arith) e free)
    reader_enters s t (Reader.reading i sum) lt e h free = (_, rdunlock t i sum lt e)

    writer_leaves :
        (s : System) (t : ℕ) (v : Writer)
        → t < W
        → s.writers t ≡ v
        → 0 < writes_now v
        → (u : System) × Step R W reads writes s u
    writer_leaves s t (Writer.out i) lt e h = absurd (omega arith)
    writer_leaves s t (Writer.locked i) lt e h = (_, load t i lt e)
    writer_leaves s t (Writer.loaded i value) lt e h = (_, store_unlock t i value lt e)

    writer_enters :
        (s : System) (t : ℕ) (v : Writer)
        → t < W
        → s.writers t ≡ v
        → 0 < writer_left v
        → s.writing ≡ false
        → s.n_reading ≡ 0
        → (u : System) × Step R W reads writes s u
    writer_enters s t (Writer.out i) lt e h free nobody =
        (_, wrlock t i lt (omega arith) e free nobody)
    writer_enters s t (Writer.locked i) lt e h free nobody = (_, load t i lt e)
    writer_enters s t (Writer.loaded i value) lt e h free nobody = (_, store_unlock t i value lt e)

    -- Nobody holds the lock.
    free_moves :
        (s : System)
        → Within s
        → s.writing ≡ false
        → s.n_reading ≡ 0
        → Joined s ⊎ ((u : System) × Step R W reads writes s u)
    free_moves s w free nobody = elim (dec_lt 0 (total reader_left R s.readers)) [
      | yes h ↦
          let (t, lt, more) = total_pos reader_left R s.readers h in
          inr (reader_enters s t (s.readers t) lt refl more free)
      | no r_done ↦ elim (dec_lt 0 (total writer_left W s.writers)) [
        | yes h ↦
            let (t, lt, more) = total_pos writer_left W s.writers h in
            inr (writer_enters s t (s.writers t) lt refl more free nobody)
        | no w_done ↦ inl (record {
          readers_done = λ t lt.
              reader_done (s.readers t) (w.readers t)
                (omega (arith, le-total reader_left R s.readers t lt));
          writers_done = λ t lt.
              writer_done (s.writers t) (w.writers t)
                (omega (arith, le-total writer_left W s.writers t lt));
        })
      ]
    ]

    moves :
        (s : System) → Inv R W s → Within s → Joined s ⊎ ((u : System) × Step R W reads writes s u)
    moves s v w = elim (dec_lt 0 (total reads_now R s.readers)) [
      | yes h ↦
          let (t, lt, inside) = total_pos reads_now R s.readers h in
          inr (reader_leaves s t (s.readers t) lt refl inside)
      | no none_in ↦ elim v.writers_in [
        | inl out ↦ free_moves s w out.0 (omega (arith, v.readers_in))
        | inr inside ↦
            let (t, lt, here_in) = total_pos writes_now W s.writers (omega (arith, inside.1)) in
            inr (writer_leaves s t (s.writers t) lt refl here_in)
      ]
    ]

    -- Whatever the schedule, a run has at most two steps for each round of the R readers and three for each of the W
    -- writers; and where no step is left all have returned, and `shared_data` counts every round of every writer.
    pub rwlock_complete :
        {s : System} (r : Star (Step R W reads writes) init s)
        → (steps r ≤ R * (2 * reads) + W * (3 * writes))
          × ((Joined s × (s.shared_data ≡ W * writes)) ⊎ ((u : System) × Step R W reads writes s u))
    rwlock_complete {s} r = (
      omega (arith, steps_bound r),
      elim (moves s (reached-Inv r) (Run-Within r)) [
        | inl done ↦ inl (done, writes_exact r done.writers_done)
        | inr more ↦ inr more
      ],
    )
