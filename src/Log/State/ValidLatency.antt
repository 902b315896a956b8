-- ===== src/Log/State/ValidLatency.antt =====
-- The latency part that `from_dict` accepts is a valid DDSketch.
use sketchlog.Prelude.{ℕ, ◌+◌, ◌≤◌, inl, inr, not, [], ◌∷◌, arith, ltb, ◌==◌, length, Bool-cases}
use sketchlog.Prelude.Key.{int_key}
use sketchlog.Prelude.Exec.{ok, Ensures, Ensures-unless, Ensures-bind, Ensures-refuse_first}
use sketchlog.Prelude.Float.{Float}
use sketchlog.Sketch.Count.{max_int64, max_uint64}
use sketchlog.Sketch.Bins.{total}
use sketchlog.Sketch.Ddsketch.{Dd, max_bins, fresh, key}
use sketchlog.Sketch.Ddsketch.Valid.{IsDd}
use sketchlog.Log.State.{Value, null, Fields}
use sketchlog.Log.State.Read.{
  no_spread, bad_zero_count, bad_count, bad_buckets, too_many_buckets, bad_sum, stray_extremum,
  bounded, item, item_or, as_dict, validate_buckets,
}
use sketchlog.Log.State.Latency.{
  read_alpha, extrema_checks, as_number, read_extrema, read_buckets, read_latency,
}
use sketchlog.Log.State.Accepts.{
  Anything, anything, bounded-Ensures, IsBuckets, validate_buckets-IsBuckets,
}

module _ (f : Float) where
  open f use {F, of_nat, lt, eq, log, tiny, largest}

  -- The latency part: valid buckets, whose sum is the count.
  read_buckets-IsDd :
      (alpha : F) (zs count : ℕ) (positive negative : Fields F)
      → zs ≤ max_int64
      → count ≤ max_uint64
      → Ensures IsDd (read_buckets f alpha zs count positive negative)
  unfolding read_buckets
  read_buckets-IsDd alpha zs count positive negative z c =
      let low = key f (fresh f alpha) tiny in
      let high = key f (fresh f alpha) largest in
      Ensures-bind IsBuckets IsDd (validate_buckets low high positive []) _
        (validate_buckets-IsBuckets low high positive [] (tt, tt))
        λ p h.
          Ensures-bind IsBuckets IsDd (validate_buckets low high negative []) _
            (validate_buckets-IsBuckets low high negative [] (tt, tt))
            λ n k.
              Ensures-refuse_first IsDd
                ((ltb max_bins (length p), too_many_buckets)
                  ∷ (ltb max_bins (length n), too_many_buckets)
                  ∷ (not (count == zs + total p + total n), bad_sum)
                  ∷ [])
                (ok (record (fresh f alpha) {
                  positive = p;
                  negative = n;
                  zero_count = zs;
                  count = count;
                }))
                λ passed. record {
                  positives = record {
                    distinct = h.0;
                    bounded = ground (arith, passed);
                    counts = h.1;
                  };
                  negatives = record {
                    distinct = k.0;
                    bounded = ground (arith, passed);
                    counts = k.1;
                  };
                  zeros = z;
                  counted = ground (arith, passed);
                  fits = c;
                }

  read_extrema-IsDd :
      (s : Dd F) (low high : Value F) → IsDd s → Ensures IsDd (read_extrema f s low high)
  unfolding read_extrema
  read_extrema-IsDd s low high v = elim (Bool-cases (ltb 0 s.count)) [
    | inr empty ↦ rw empty (Ensures-unless IsDd _ stray_extremum (ok s) v)
    | inl used ↦ rw used (
        Ensures-bind Anything IsDd (as_number f low) _ (anything (as_number f low)) λ least _.
          Ensures-bind Anything IsDd (as_number f high) _ (anything (as_number f high)) λ most _.
            Ensures-refuse_first IsDd (extrema_checks f (record s { min = least; max = most })) _
              λ _. record {
                positives = v.positives;
                negatives = v.negatives;
                zeros = v.zeros;
                counted = v.counted;
                fits = v.fits;
              })
  ]

  pub read_latency-IsDd : (d : Fields F) → Ensures IsDd (read_latency f d)
  unfolding read_latency
  read_latency-IsDd d =
      Ensures-bind Anything IsDd (item "alpha" d) _ (anything (item "alpha" d)) λ alpha_value _.
        Ensures-bind Anything IsDd (read_alpha f alpha_value) _
          (anything (read_alpha f alpha_value))
          λ alpha _.
            Ensures-bind Anything IsDd (item "zero_count" d) _ (anything (item "zero_count" d))
              λ zeros_value _.
                Ensures-bind Anything IsDd (item "count" d) _ (anything (item "count" d))
                  λ count_value _.
                    Ensures-bind (λ n. n ≤ max_int64) IsDd
                      (bounded max_int64 bad_zero_count zeros_value) _
                      (bounded-Ensures max_int64 bad_zero_count zeros_value)
                      λ zs z.
                        Ensures-bind (λ n. n ≤ max_uint64) IsDd
                          (bounded max_uint64 bad_count count_value) _
                          (bounded-Ensures max_uint64 bad_count count_value)
                          λ count c.
                            Ensures-bind Anything IsDd
                              (as_dict bad_buckets (item_or null "positive" d)) _
                              (anything (as_dict bad_buckets (item_or null "positive" d)))
                              λ positive _.
                                Ensures-bind Anything IsDd
                                  (as_dict bad_buckets (item_or null "negative" d)) _
                                  (anything (as_dict bad_buckets (item_or null "negative" d)))
                                  λ negative _.
                                    Ensures-unless IsDd (eq (log (fresh f alpha).gamma) (of_nat 0))
                                      no_spread _
                                      (Ensures-bind IsDd IsDd
                                        (read_buckets f alpha zs count positive negative) _
                                        (read_buckets-IsDd alpha zs count positive negative z c)
                                        λ s v.
                                          read_extrema-IsDd s (item_or null "min" d)
                                            (item_or null "max" d) v)
