-- ===== src/Log/State/Latency.antt =====
-- facade.py: the latency part of `from_dict`.
use sketchlog.Prelude.{
  ℕ, ◌+◌, Bool, true, false, not, ◌&&◌, ◌||◌, List, [], ◌∷◌, ltb, ◌==◌, if◌then◌else◌, length,
}
use sketchlog.Prelude.Key.{int_key, int_beq}
use sketchlog.Prelude.Exec.{Result, ok, err, refuse_if, refuse_first, bind}
use sketchlog.Prelude.Float.{Float, of_int}
use sketchlog.Sketch.Count.{max_int64, max_uint64}
use sketchlog.Sketch.Bins.{total}
use sketchlog.Sketch.Ddsketch.{Dd, max_bins, fresh, key}
use sketchlog.Log.State.{Value, null, int, float, Fields}
use sketchlog.Log.State.Read.{
  StateError, bad_alpha, no_spread, bad_zero_count, bad_count, bad_buckets, too_many_buckets,
  bad_sum, no_extremum, bad_extremum, infinite_extremum, swapped_extrema, contradicts_positive,
  contradicts_negative, contradicts_zeros, stray_extremum, bounded, max_key, min_key, is_used, item,
  item_or, as_dict, validate_buckets,
}

module _ (f : Float) where
  open f use {F, of_nat, lt, le, eq, is_nan, is_inf, neg, log, ceil, mul, tiny, largest}

  -- A number, which the code keeps as it is: an `int` counts as its `float`.
  unfoldable pub as_number : Value F → Result StateError F
  as_number null = err no_extremum
  as_number (int k) = ok (of_int f k)
  as_number (float x) = ok x
  as_number _ = err bad_extremum

  -- `0 < alpha < 1`, which no integer and no boolean meets, and no comparison of another type
  unfoldable pub read_alpha : Value F → Result StateError F
  read_alpha (float x) = refuse_if (not (lt (of_nat 0) x && lt x (of_nat 1))) bad_alpha (ok x)
  read_alpha _ = err bad_alpha

  -- The checks of the extrema of a sketch that has counted, where `s` has the restored buckets.
  unfoldable pub extrema_checks : Dd F → List (Bool × StateError)
  extrema_checks s =
      let p = is_used s.positive in
      let n = is_used s.negative in
      let zero_value = of_nat 0 in
      (is_nan s.min || is_inf s.min || is_nan s.max || is_inf s.max, infinite_extremum)
      ∷ (lt s.max s.min, swapped_extrema)
      ∷ (p && le s.max zero_value, contradicts_positive)
      ∷ (p && not (int_beq (key f s s.max) (max_key s.positive)), contradicts_positive)
      ∷ (
        p && lt zero_value s.min && not (int_beq (key f s s.min) (min_key s.positive)),
        contradicts_positive,
      )
      ∷ (n && le zero_value s.min, contradicts_negative)
      ∷ (n && not (int_beq (key f s (neg s.min)) (max_key s.negative)), contradicts_negative)
      ∷ (
        n && lt s.max zero_value && not (int_beq (key f s (neg s.max)) (min_key s.negative)),
        contradicts_negative,
      )
      ∷ (ltb 0 s.zero_count && (lt zero_value s.min || lt s.max zero_value), contradicts_zeros)
      ∷ (not p && lt zero_value s.max, stray_extremum)
      ∷ (not n && lt s.min zero_value, stray_extremum)
      ∷ (eq s.max zero_value && s.zero_count == 0, stray_extremum)
      ∷ (eq s.min zero_value && s.zero_count == 0, stray_extremum)
      ∷ []

  abbrev pub is_null : Value F → Bool
  is_null null = true
  is_null _ = false

  -- The extrema: both numbers, and in accord with the buckets, or both None for an empty sketch,
  -- which keeps those of the constructor.
  unfoldable pub read_extrema : Dd F → (low high : Value F) → Result StateError (Dd F)
  read_extrema s low high =
      if ltb 0 s.count
      then bind (as_number low) (λ least. bind (as_number high) (λ most.
        let restored = record s { min = least; max = most } in
        refuse_first (extrema_checks restored) (ok restored)))
      else refuse_if (not (is_null low) || not (is_null high)) stray_extremum (ok s)

  -- The buckets, whose range is that of the finite values, and their sum.
  unfoldable pub read_buckets :
      F → (zeros count : ℕ) → (positive negative : Fields F) → Result StateError (Dd F)
  read_buckets alpha zeros count positive negative =
      let s = fresh f alpha in
      let high = key f s largest in
      let low = key f s tiny in
      bind (validate_buckets low high positive []) (λ p.
        bind (validate_buckets low high negative []) (λ n.
          refuse_first
            ((ltb max_bins (length p), too_many_buckets)
              ∷ (ltb max_bins (length n), too_many_buckets)
              ∷ (not (count == zeros + total p + total n), bad_sum)
              ∷ [])
            (ok (record s { positive = p; negative = n; zero_count = zeros; count = count }))))

  -- `1.0 / math.log(gamma)` raises where the logarithm is 0.
  unfoldable pub read_latency : Fields F → Result StateError (Dd F)
  read_latency d = bind (item "alpha" d) (λ alpha_value. bind (read_alpha alpha_value) (λ alpha.
      bind (item "zero_count" d) (λ zeros_value. bind (item "count" d) (λ count_value.
        bind (bounded max_int64 bad_zero_count zeros_value) (λ zeros.
          bind (bounded max_uint64 bad_count count_value) (λ count.
            bind (as_dict bad_buckets (item_or null "positive" d)) (λ positive.
              bind (as_dict bad_buckets (item_or null "negative" d)) (λ negative.
                refuse_if (eq (log (fresh f alpha).gamma) (of_nat 0)) no_spread (
                  bind (read_buckets alpha zeros count positive negative)
                    (λ s. read_extrema s (item_or null "min" d) (item_or null "max" d)))))))))))
