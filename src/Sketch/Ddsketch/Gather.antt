-- ===== src/Sketch/Ddsketch/Gather.antt =====
-- `add_batch` keeps the invariant of the sketch and is all or nothing.
use sketchlog.Prelude.{
  ℕ, ◌+◌, ◌<◌, ◌≡◌, refl, false, ◌||◌, List, [], ◌∷◌, arith, ltb, ◌==◌ as nat_eq, Bool-cases, inl,
  inr, ◌⊎◌,
}
use sketchlog.Prelude.Int.{ℤ}
use sketchlog.Prelude.Key.{int_key, ◌==◌}
use sketchlog.Prelude.Dict
use sketchlog.Prelude.Dict.{IsDict}
use sketchlog.Prelude.Exec.{Result, ok, err, bind, Ensures, Ensures-refuse_if, Ensures-bind}
use sketchlog.Prelude.Float.{Float}
use sketchlog.Sketch.Count.{max_int64, max_uint64}
use sketchlog.Sketch.Bins.{Bins, bump, total, total-bump, bump-IsDict, bump-cons}
use sketchlog.Sketch.Ddsketch.{
  Dd, DdError, max_bins, key, is_inaccurate, too_small, bins_full, count_overflow, zero_overflow,
  bin_overflow,
}
use sketchlog.Sketch.Ddsketch.Valid.{IsDd}
use sketchlog.Sketch.Ddsketch.Batch.{
  Batch, union_size, any_over, empty_batch, finite_count, see, put_value, take_value, gather,
  commit_batch, check_batch, close_batch, finish_batch, add_batch,
}
use sketchlog.Sketch.Ddsketch.Union.{IsPositive, bump_all-IsUnion}

bump-IsPositive :
    (idx : ℤ) (n : ℕ) (store : Bins) → 0 < n → IsPositive store → IsPositive (bump idx n store)
bump-IsPositive idx n [] p h = unfold bump Dict.put Dict.get_or in (omega arith, tt)
bump-IsPositive idx n ((j, m) ∷ store) p h = elim (Bool-cases (j == idx)) [
  | inl same ↦ rw (bump-cons idx j n m store, same) (omega (arith, h.0), h.1)
  | inr other ↦ rw (bump-cons idx j n m store, other) (h.0, bump-IsPositive idx n store p h.1)
]

record IsBatch {F : Type 0} (b : Batch F) : Type 0 where
  distinct_pos : IsDict b.tmp_pos
  distinct_neg : IsDict b.tmp_neg
  positive_pos : IsPositive b.tmp_pos
  positive_neg : IsPositive b.tmp_neg
  counted : b.tmp_count ≡ b.tmp_zeros + total b.tmp_pos + total b.tmp_neg

module _ (f : Float) where
  open f use {F, of_nat, lt, eq, neg, abs, is_nan, is_inf, inf}

  -- The batch after some more values.
  abbrev IsGrown : Batch F → ℕ → Batch F → Type 0
  IsGrown b n b' = IsBatch b' × (b'.tmp_count ≡ b.tmp_count + n)

  put_value-IsBatch :
      (idx : ℤ) (v : F) (b : Batch F) → IsBatch b → IsBatch (see f v (put_value f idx v b))
  put_value-IsBatch idx v b h = elim (Bool-cases (lt (of_nat 0) v)) [
    | inl up ↦ rw up (record {
      distinct_pos = bump-IsDict idx 1 b.tmp_pos h.distinct_pos;
      distinct_neg = h.distinct_neg;
      positive_pos = bump-IsPositive idx 1 b.tmp_pos (omega arith) h.positive_pos;
      positive_neg = h.positive_neg;
      counted = omega (arith, h.counted, total-bump idx 1 b.tmp_pos);
    })
    | inr down ↦ rw down (record {
      distinct_pos = h.distinct_pos;
      distinct_neg = bump-IsDict idx 1 b.tmp_neg h.distinct_neg;
      positive_pos = h.positive_pos;
      positive_neg = bump-IsPositive idx 1 b.tmp_neg (omega arith) h.positive_neg;
      counted = omega (arith, h.counted, total-bump idx 1 b.tmp_neg);
    })
  ]

  count-put_value : (idx : ℤ) (v : F) (b : Batch F) → (put_value f idx v b).tmp_count ≡ b.tmp_count
  count-put_value idx v b = ground arith

  take_value-IsGrown :
      (s : Dd F) (v : F) (b : Batch F)
      → IsBatch b
      → Ensures (IsGrown b (finite_count f (v ∷ []))) (take_value f s v b)
  unfolding take_value
  take_value-IsGrown s v b h = elim (Bool-cases (is_nan v || is_inf v)) [
    | inl special ↦ rw special (h, omega arith)
    | inr finite ↦ elim (Bool-cases (eq v (of_nat 0))) [
      | inl is_zero ↦
          rw (finite, is_zero)
            (
              record {
                distinct_pos = h.distinct_pos;
                distinct_neg = h.distinct_neg;
                positive_pos = h.positive_pos;
                positive_neg = h.positive_neg;
                counted = omega (arith, h.counted);
              },
              refl,
            )
      | inr nonzero ↦
          rw (finite, nonzero)
            (Ensures-refuse_if (IsGrown b 1) (is_inaccurate f s (abs v)) too_small
              (ok (see f v (put_value f (key f s (abs v)) v b)))
              λ _. (
                put_value-IsBatch (key f s (abs v)) v b h,
                omega (arith, count-put_value (key f s (abs v)) v b),
              ))
    ]
  ]

  gather-IsGrown :
      (s : Dd F) (values : List F) (b : Batch F)
      → IsBatch b
      → Ensures (IsGrown b (finite_count f values)) (gather f s values b)
  unfolding gather
  gather-IsGrown s [] b h = (h, omega arith)
  gather-IsGrown s (v ∷ values) b h =
      Ensures-bind (IsGrown b (finite_count f (v ∷ []))) (IsGrown b (finite_count f (v ∷ values)))
        (take_value f s v b) (gather f s values) (take_value-IsGrown s v b h)
        λ b' g. weaken b' g.1 (gather f s values b') (gather-IsGrown s values b' g.0)
    where
      weaken :
          (b' : Batch F)
          → b'.tmp_count ≡ b.tmp_count + finite_count f (v ∷ [])
          → (r : Result DdError (Batch F)) → Ensures (IsGrown b' (finite_count f values)) r
          → Ensures (IsGrown b (finite_count f (v ∷ values))) r
      weaken b' e (err x) g = tt
      weaken b' e (ok c) g = (g.0, ground (arith, g.1, e))

  -- What a batch makes of a sketch.
  abbrev pub IsExtended : Dd F → ℕ → Dd F → Type 0
  IsExtended s n s' = IsDd s' × (s'.count ≡ s.count + n)

  close_batch-IsExtended :
      (s : Dd F) (b : Batch F) (n : ℕ)
      → IsDd s
      → IsBatch b
      → b.tmp_count ≡ n
      → Ensures (IsExtended s n) (close_batch f s b)
  unfolding close_batch check_batch
  close_batch-IsExtended s b n v h e = elim (Bool-cases (nat_eq b.tmp_count 0)) [
    | inl none ↦ rw none (v, ground arith)
    | inr some_values ↦ rw some_values (
        Ensures-refuse_if (IsExtended s n) (ltb max_bins (union_size s.positive b.tmp_pos))
          bins_full _
          λ fit_pos.
            Ensures-refuse_if (IsExtended s n) (ltb max_bins (union_size s.negative b.tmp_neg))
              bins_full _
              λ fit_neg.
                Ensures-refuse_if (IsExtended s n) (ltb max_uint64 (s.count + b.tmp_count))
                  count_overflow _
                  λ fits.
                    Ensures-refuse_if (IsExtended s n) (ltb max_int64 (s.zero_count + b.tmp_zeros))
                      zero_overflow _
                      λ zeros.
                        Ensures-refuse_if (IsExtended s n) (any_over s.positive b.tmp_pos)
                          bin_overflow _
                          λ room_pos.
                            Ensures-refuse_if (IsExtended s n) (any_over s.negative b.tmp_neg)
                              bin_overflow (ok (commit_batch f b s))
                              λ room_neg.
                                commit_batch-IsExtended fit_pos fit_neg fits zeros room_pos
                                  room_neg)
  ]
    where
      commit_batch-IsExtended :
          ltb max_bins (union_size s.positive b.tmp_pos) ≡ false
          → ltb max_bins (union_size s.negative b.tmp_neg) ≡ false
          → ltb max_uint64 (s.count + b.tmp_count) ≡ false
          → ltb max_int64 (s.zero_count + b.tmp_zeros) ≡ false
          → any_over s.positive b.tmp_pos ≡ false
          → any_over s.negative b.tmp_neg ≡ false
          → IsExtended s n (commit_batch f b s)
      commit_batch-IsExtended fit_pos fit_neg fits zeros room_pos room_neg =
          let p =
            bump_all-IsUnion b.tmp_pos s.positive h.distinct_pos h.positive_pos v.positives.distinct
              v.positives.counts room_pos in
          let q =
            bump_all-IsUnion b.tmp_neg s.negative h.distinct_neg h.positive_neg v.negatives.distinct
              v.negatives.counts room_neg in
          unfold commit_batch in
          (
            record {
              positives = record {
                distinct = p.distinct;
                bounded = ground (arith, p.size);
                counts = p.counts;
              };
              negatives = record {
                distinct = q.distinct;
                bounded = ground (arith, q.size);
                counts = q.counts;
              };
              zeros = ground arith;
              counted = omega (arith, v.counted, h.counted, p.sums, q.sums);
              fits = ground arith;
            },
            omega arith,
          )

  -- `add_batch` of any values either raises and leaves a valid sketch as it was, or leaves a valid
  -- sketch that has counted the values that are neither NaN nor infinite.
  pub add_batch-IsDd :
      (values : List F) (s : Dd F)
      → IsDd s
      → ((e : DdError) × (add_batch f values s ≡ (err e, s)))
        ⊎ (((add_batch f values s).0 ≡ ok tt)
            × IsDd (add_batch f values s).1
            × ((add_batch f values s).1.count ≡ s.count + finite_count f values))
  unfolding add_batch
  add_batch-IsDd values s v = go (bind (gather f s values (empty_batch f)) (close_batch f s)) (
      Ensures-bind (IsGrown (empty_batch f) (finite_count f values))
        (IsExtended s (finite_count f values)) (gather f s values (empty_batch f)) (close_batch f s)
        (gather-IsGrown s values (empty_batch f) (record {
          distinct_pos = tt;
          distinct_neg = tt;
          positive_pos = tt;
          positive_neg = tt;
          counted = refl;
        }))
        λ b g. close_batch-IsExtended s b (finite_count f values) v g.0 (omega (arith, g.1)))
    where
      go :
          (r : Result DdError (Dd F))
          → Ensures (IsExtended s (finite_count f values)) r
          → ((e : DdError) × (finish_batch f s r ≡ (err e, s)))
            ⊎ (((finish_batch f s r).0 ≡ ok tt)
                × IsDd (finish_batch f s r).1
                × ((finish_batch f s r).1.count ≡ s.count + finite_count f values))
      go (err e) h = inl (e, refl)
      go (ok s') h = inr (refl, h.0, h.1)
