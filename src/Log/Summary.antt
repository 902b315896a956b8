-- ===== src/Log/Summary.antt =====
-- The latencies that a StreamLog has counted: its DDSketch summarises them, through every method.
use sketchlog.Prelude.{◌⊎◌}
use sketchlog.Sketch.Ddsketch.Extrema.{Among-lt_inf, Among-inf_lt}
use sketchlog.Prelude.{
  ◌+◌, ◌≡◌, refl, inl, inr, true, false, not, ◌||◌, [], ◌∷◌, ◌++◌, arith, ltb, ◌==◌, Bool-cases,
}
use sketchlog.Prelude.Exec.{
  Result, ok, err, Ensures, Ensures-refuse_if, Ensures-unless, Ensures-bind,
}
use sketchlog.Prelude.Float.{Float, FloatKeys}
use sketchlog.Sketch.Count.{max_int64, max_uint64}
use sketchlog.Sketch.Bins.{Bins, bump, bump_all}
use sketchlog.Sketch.Ddsketch.{Dd}
use sketchlog.Sketch.Ddsketch.Summary.{Stream, IsSummary, no_weight}
use sketchlog.Sketch.Ddsketch.Joins.{Joins, Joins-IsSummary}
use sketchlog.Sketch.Ddsketch.Batched.{get_or-bump_all}
use sketchlog.Log
use sketchlog.Log.{StreamLog, LogError, Parts}
use sketchlog.Log.Valid.{IsStreamLog}

merge_bins-bump_all :
    (store other : Bins) → Ensures (λ r. r ≡ bump_all other store) (Log.merge_bins store other)
unfolding Log.merge_bins bump_all
merge_bins-bump_all store [] = refl
merge_bins-bump_all store ((idx, n) ∷ other) =
    Ensures-unless (λ r. r ≡ bump_all other (bump idx n store)) _ LogError.bin_overflow _
      (merge_bins-bump_all (bump idx n store) other)

merge_store-bump_all :
    (store other : Bins) → Ensures (λ r. r ≡ bump_all other store) (Log.merge_store store other)
unfolding Log.merge_store
merge_store-bump_all store other =
    Ensures-bind (λ r. r ≡ bump_all other store) (λ r. r ≡ bump_all other store)
      (Log.merge_bins store other) _ (merge_bins-bump_all store other)
      λ r e. Ensures-unless (λ r. r ≡ bump_all other store) _ LogError.bins_full (ok r) e

module _ (f : Float) where
  open f use {F, of_nat, lt, le, eq, millionth, is_nan, is_inf}

  -- What `merge` computes of the buckets.
  abbrev IsBumped : StreamLog F → StreamLog F → Parts → Type 0
  IsBumped s t parts =
      (eq s.latency.alpha t.latency.alpha ≡ true)
      × (parts.positive ≡ bump_all t.latency.positive s.latency.positive)
      × (parts.negative ≡ bump_all t.latency.negative s.latency.negative)

  plan-IsBumped : (s t : StreamLog F) → Ensures (IsBumped s t) (Log.plan f s t)
  unfolding Log.plan Log.plan_parts
  plan-IsBumped s t =
      let P = IsBumped s t in
      Ensures-refuse_if P (not (eq s.latency.alpha t.latency.alpha)) LogError.alpha_mismatch _
        λ alpha. Ensures-unless P (not (s.uniques.p == t.uniques.p)) LogError.precision_mismatch _ (
          Ensures-unless P
            (not (s.events.width == t.events.width) || not (s.events.depth == t.events.depth))
            LogError.dimension_mismatch _
            (Ensures-unless P (ltb max_uint64 (s.total + t.total)) LogError.events_full _ (
              Ensures-unless P (ltb max_uint64 (s.latency.count + t.latency.count))
                LogError.latency_overflow _
                (Ensures-unless P (ltb max_int64 (s.latency.zero_count + t.latency.zero_count))
                  LogError.zero_overflow _
                  (Ensures-unless P (ltb max_int64 (s.events.total + t.events.total))
                    LogError.total_overflow _
                    (Ensures-bind _ P (Log.merge_store s.latency.positive t.latency.positive) _
                      (merge_store-bump_all s.latency.positive t.latency.positive)
                      λ positive p.
                        Ensures-bind _ P (Log.merge_store s.latency.negative t.latency.negative) _
                          (merge_store-bump_all s.latency.negative t.latency.negative)
                          λ negative n.
                            Ensures-bind (λ _. Unit) P
                              (Log.merge_table s.events.table t.events.table) _
                              (anything (Log.merge_table s.events.table t.events.table))
                              λ table _. (ground arith, p, n)))))))
    where
      anything : {A : Type 0} (r : Result LogError A) → Ensures (λ _. Unit) r
      anything (ok a) = tt
      anything (err e) = tt

  -- What a call that returns adds to the values.
  abbrev pub after_return : {E A : Type 0} → Result E A → Stream F → Stream F → Stream F
  after_return (ok a) more xs = xs ++ more
  after_return (err e) more xs = xs

  -- The latency sketch summarises some finite values, at the accuracy that the log was made with.
  pub record HasSummary (s : StreamLog F) : Type 0 where
    pub accuracy : F
    pub low : le millionth accuracy ≡ true
    pub high : lt accuracy (of_nat 1) ≡ true
    pub values : Stream F
    pub summary : IsSummary f accuracy s.latency values

  module _ (laws : FloatKeys f) where
    -- The extrema of no values change nothing.
    empty-least :
        (accuracy : F) (d e : Dd F) (xs : Stream F)
        → IsSummary f accuracy d xs
        → IsSummary f accuracy e []
        → (lt e.min d.min ≡ false) × (lt d.max e.max ≡ false)
    empty-least accuracy d e xs h k = (
      elim (k.lowest) [
        | inr at ↦ absurd at
        | inl (_, is_inf) ↦ rw is_inf (elim (h.lowest) [
          | inl (_, is_inf') ↦ rw is_inf' (ground (arith, laws.order.lt_asymm f.inf f.inf))
          | inr at ↦ laws.order.lt_asymm d.min f.inf (Among-lt_inf f laws d.min xs h.finite at)
        ])
      ],
      elim (k.highest) [
        | inr at ↦ absurd at
        | inl (_, is_inf) ↦ rw is_inf (elim (h.highest) [
          | inl (_, is_inf') ↦
              rw is_inf' (ground (arith, laws.order.lt_asymm (f.neg f.inf) (f.neg f.inf)))
          | inr at ↦
              laws.order.lt_asymm (f.neg f.inf) d.max (Among-inf_lt f laws d.max xs h.finite at)
        ])
      ],
    )

    merged-Joins :
        (accuracy : F) (s t : StreamLog F) (xs ys : Stream F) (parts : Parts)
        → IsStreamLog t
        → IsSummary f accuracy s.latency xs
        → IsSummary f accuracy t.latency ys
        → IsBumped s t parts
        → Joins f laws s.latency t.latency (Log.merged f s t parts).latency
    unfolding Log.merged
    merged-Joins accuracy s t xs ys parts v h k b =
        let unless_empty : (ltb 0 t.latency.count ≡ true)
            ⊎ ((lt t.latency.min s.latency.min ≡ false)
                × (lt s.latency.max t.latency.max ≡ false)) =
          elim (Bool-cases (ltb 0 t.latency.count)) [
            | inl used ↦ inl used
            | inr empty ↦
                let e = no_weight f ys k.finite (ground (arith, k.counted)) in
                inr (empty-least accuracy s.latency t.latency xs h (rw e at k))
          ] in
        record {
          alpha = refl;
          gamma = refl;
          multiplier = refl;
          positive = λ i. rw (b.1) (
              get_or-bump_all i t.latency.positive s.latency.positive v.latency.positives.distinct);
          negative = λ i. rw (b.2) (
              get_or-bump_all i t.latency.negative s.latency.negative v.latency.negatives.distinct);
          zeros = refl;
          count = refl;
          min = ground (arith, unless_empty);
          max = ground (arith, unless_empty);
        }

    pub merge-HasSummary :
        (s t : StreamLog F)
        → IsStreamLog t
        → (h : HasSummary s) (k : HasSummary t)
        → (m : HasSummary (Log.merge f t s).1) × (m.values
            ≡ after_return (Log.merge f t s).0 k.values h.values)
    unfolding Log.merge
    merge-HasSummary s t v h k = go (Log.plan f s t) (plan-IsBumped s t)
      where
        go :
            (r : Result LogError Parts)
            → Ensures (IsBumped s t) r
            → (m : HasSummary (Log.commit_merge f s t r).1) × (m.values
                ≡ after_return (Log.commit_merge f s t r).0 k.values h.values)
        go (err e) b = (h, refl)
        go (ok parts) b =
            let same : h.accuracy ≡ k.accuracy =
              laws.eq_same h.accuracy k.accuracy (rw (← h.summary.alpha, ← k.summary.alpha) (b.0))
                (laws.millionth_pos h.accuracy h.low) in
            let other = rw (← same) at (k.summary) in
            (
              record {
                accuracy = h.accuracy;
                low = h.low;
                high = h.high;
                values = h.values ++ k.values;
                summary =
                    Joins-IsSummary f laws h.accuracy s.latency t.latency _ h.values k.values
                      (merged-Joins h.accuracy s t h.values k.values parts v h.summary other b)
                      h.summary other;
              },
              refl,
            )
