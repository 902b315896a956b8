-- ===== src/Sketch/Ddsketch/Ranked.antt =====
-- `DDSketch.quantile` finds the quantile of the stream that a sketch summarises.
use sketchlog.Prelude.{
  ℕ, ◌<◌, ◌≡◌, refl, ap, ◌∙◌, inl, inr, Bool, true, false, [], ◌∷◌, arith, ◌==◌ as nat_eq,
  Bool-cases, All, if◌then◌else◌,
}
use sketchlog.Prelude.Int.{ℤ}
use sketchlog.Prelude.Key.{int_key}
use sketchlog.Prelude.Exec.{ok}
use mathlib.Core.Path.{subst}
use sketchlog.Prelude.Dict
use sketchlog.Prelude.Float.{Float, FloatKeys}
use sketchlog.Sketch.Bins.{Bins}
use sketchlog.Sketch.Ddsketch.{Dd}
use sketchlog.Sketch.Ddsketch.Summary.{
  Stream, weight, in_positive, in_negative, IsSummary, bucket_value-same, All-map,
}
use sketchlog.Sketch.Ddsketch.Sorted.{
  sorted_items-All, sorted_items-IsSorted, total-sorted_items, ascending-IsStrict,
  descending-IsStrict, get_or-All,
}
use sketchlog.Sketch.Ddsketch.Valid.{IsDd}
use sketchlog.Sketch.Ddsketch.Rank.{
  Place, below, above, at_zero, precedes, Histogram, is_at, IsHistogram, IsRanked, IsLeast,
  IsGreatest, IsQuantile,
}
use sketchlog.Sketch.Ddsketch.Quantile.{
  sorted_items, ascending, descending, walk, end_positive, walk_zero, end_negative, quantile,
}
use sketchlog.Sketch.Ddsketch.Places.{
  placed, placed-All, placed-IsOrdered, tally-placed, is_at_mono,
}
use sketchlog.Sketch.Ddsketch.Walk.{IsRanked-cons, walk-IsRanked}

module _ (f : Float) where
  open f use {F, of_nat, lt, le, sub, mul, neg, is_nan, is_inf}

  module _ (laws : FloatKeys f) (accuracy : F) (low : le f.millionth accuracy ≡ true)
      (high : lt accuracy (of_nat 1) ≡ true) (s : Dd F) (xs : Stream F)
      (h : IsSummary f accuracy s xs) (v : IsDd s) where
    -- The buckets of the sketch in the order of the walk.
    not_below : Histogram
    not_below = (at_zero, s.zero_count) ∷ placed above (sorted_items ascending s.positive) []

    buckets : Histogram
    buckets = placed below (sorted_items descending s.negative) not_below

    not_below-All :
        (P : Place × ℕ → Type 0)
        → P (at_zero, s.zero_count)
        → All (λ (i : ℤ × ℕ). P (above i.0, i.1)) (sorted_items ascending s.positive)
        → All P not_below
    unfolding not_below
    not_below-All P p q = (p, placed-All P above (sorted_items ascending s.positive) [] q tt)

    positive-All :
        All
          (λ (i : ℤ × ℕ). i.1 ≡ weight (in_positive f accuracy i.0) xs)
          (sorted_items ascending s.positive)
    positive-All =
        All-map _ (λ i. i.1 ≡ weight (in_positive f accuracy i.0) xs) _ (λ i e. e ∙ h.positive i.0)
          (sorted_items-All (λ i. i.1 ≡ Dict.get_or i.0 0 s.positive) ascending s.positive
            (get_or-All s.positive v.positives.distinct))

    negative-All :
        All
          (λ (i : ℤ × ℕ). i.1 ≡ weight (in_negative f accuracy i.0) xs)
          (sorted_items descending s.negative)
    negative-All =
        All-map _ (λ i. i.1 ≡ weight (in_negative f accuracy i.0) xs) _ (λ i e. e ∙ h.negative i.0)
          (sorted_items-All (λ i. i.1 ≡ Dict.get_or i.0 0 s.negative) descending s.negative
            (get_or-All s.negative v.negatives.distinct))

    everything : (P : ℤ × ℕ → Type 0) → ((i : ℤ × ℕ) → P i) → (items : Bins) → All P items
    everything P g [] = tt
    everything P g (i ∷ items) = (g i, everything P g items)

    buckets-IsHistogram : IsHistogram f accuracy xs buckets
    unfolding buckets not_below
    buckets-IsHistogram =
        let up = sorted_items ascending s.positive in
        let down = sorted_items descending s.negative in
        record {
          ordered =
              placed-IsOrdered below descending (λ j k b. b) down not_below
                (sorted_items-IsSorted descending s.negative descending-IsStrict
                  v.negatives.distinct)
                (λ k.
                  not_below-All (λ c. precedes (below k) c.0 ≡ true) refl
                    (everything _ (λ i. refl) up))
                (
                  placed-All (λ c. precedes at_zero c.0 ≡ true) above up []
                      (everything _ (λ i. refl) up) tt,
                  placed-IsOrdered above ascending (λ j k b. b) up []
                      (sorted_items-IsSorted ascending s.positive ascending-IsStrict
                        v.positives.distinct)
                      (λ k. tt) tt,
                );
          counted =
              placed-All (λ b. b.1 ≡ weight (is_at f accuracy b.0) xs) below down not_below
                negative-All
                (not_below-All (λ b. b.1 ≡ weight (is_at f accuracy b.0) xs) h.zeros positive-All);
          whole =
              let counts = tally-placed below down not_below in
              let counts' = tally-placed above up [] in
              omega (
                arith,
                counts,
                counts',
                total-sorted_items ascending s.positive,
                total-sorted_items descending s.negative,
                h.counted,
                v.counted,
              );
          rising = is_at_mono f laws accuracy low high;
        }

    -- The walk over them.
    walk_zero-IsRanked : (rank : F) → IsRanked f accuracy s.max rank not_below (walk_zero f s rank)
    unfolding walk_zero not_below
    walk_zero-IsRanked rank = by_test (le (sub rank (of_nat s.zero_count)) (of_nat 0)) refl
      where
        left_over : F
        left_over = sub rank (of_nat s.zero_count)

        up : Bins
        up = sorted_items ascending s.positive

        by_test :
            (uses_up : Bool)
            → le left_over (of_nat 0) ≡ uses_up
            → IsRanked f accuracy s.max rank
                ((at_zero, s.zero_count) ∷ placed above up [])
                (if uses_up then of_nat 0 else end_positive f s (walk f left_over up))
        by_test true ends =
            inl ([], at_zero, s.zero_count, placed above up [], refl, tt, ends, refl)
        by_test false goes =
            IsRanked-cons f accuracy s.max rank at_zero s.zero_count (placed above up []) _ goes (
              walk-IsRanked f accuracy s.max above [] (end_positive f s)
                (bucket_value-same f accuracy s xs h) (λ r. inr (tt, refl)) left_over up)

    end_negative-IsRanked :
        (rank : F)
        → IsRanked f accuracy s.max rank buckets
            (end_negative f s (walk f rank (sorted_items descending s.negative)))
    unfolding buckets
    end_negative-IsRanked rank =
        walk-IsRanked f accuracy s.max below not_below (end_negative f s)
          (λ k. ap neg (bucket_value-same f accuracy s xs h k)) walk_zero-IsRanked rank
          (sorted_items descending s.negative)

    module _ (used : 0 < s.count) where
      nonempty : xs ≡ [] → ⊥
      nonempty e =
          let none_of : s.count ≡ 0 = h.counted ∙ rw e (unfold weight in refl) in
          omega (arith, used, none_of)

      least : IsLeast f xs s.min
      least = elim (h.lowest) [ inr a ↦ (a, h.least) | inl (empty, _) ↦ absurd (nonempty empty) ]

      greatest : IsGreatest f xs s.max
      greatest = elim (h.highest) [ inr a ↦ (a, h.most) | inl (empty, _) ↦ absurd (nonempty empty) ]

      -- A sketch that has counted answers for every finite number, and with the quantile of any
      -- stream that it summarises.
      pub quantile-IsQuantile :
          (q : F)
          → is_nan q ≡ false
          → is_inf q ≡ false
          → (y : F) × (quantile f q s ≡ ok y) × IsQuantile f accuracy xs q y
      unfolding quantile
      quantile-IsQuantile q real bounded =
          let some_values : nat_eq s.count 0 ≡ false = ground (arith, used) in
          elim (Bool-cases (le q (of_nat 0))) [
            | inl low ↦ (s.min, rw (real, bounded, some_values, low) refl, inl (low, least))
            | inr over ↦ elim (Bool-cases (le (of_nat 1) q)) [
              | inl high ↦ (
                s.max,
                rw (real, bounded, some_values, over, high) refl,
                inr (inl (over, high, greatest)),
              )
              | inr under ↦
                  let y =
                    end_negative f s
                      (walk f (mul q (of_nat s.count)) (sorted_items descending s.negative)) in
                  (
                    y,
                    rw (real, bounded, some_values, over, under) refl,
                    inr (
                        inr (
                          over,
                          under,
                          buckets,
                          buckets-IsHistogram,
                          s.max,
                          greatest,
                          subst (λ c. IsRanked f accuracy s.max (mul q (of_nat c)) buckets y)
                              h.counted (end_negative-IsRanked (mul q (of_nat s.count))),
                        )),
                  )
            ]
          ]
