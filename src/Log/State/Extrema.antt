-- ===== src/Log/State/Extrema.antt =====
-- The extrema and the buckets of a sketch that summarises some values pass the checks of
-- `from_dict`.
use sketchlog.Prelude.{
  ◌<◌, ◌≡◌, refl, ◌∙◌, inl, inr, Bool, true, false, not, ◌&&◌, ◌||◌, [], arith, ltb, ◌==◌ as nat_eq,
}
use sketchlog.Prelude.Int.{ltb_ℤ}
use sketchlog.Prelude.Key.{int_key, int_beq, beq_refl}
use sketchlog.Prelude.Exec.{Passes}
use sketchlog.Prelude.Float.{Float, FloatKeys}
use sketchlog.Sketch.Count.{max_int64}
use sketchlog.Sketch.Ddsketch.{Dd, key}
use sketchlog.Sketch.Ddsketch.Valid.{IsDd}
use sketchlog.Sketch.Ddsketch.Summary.{Stream, weight, Among, in_zero, IsSummary, key-same}
use sketchlog.Sketch.Ddsketch.Extrema.{Among-finite}
use sketchlog.Sketch.Ddsketch.Monotone.{
  never, All-Among, index, key_mono, positive_counts, negative_counts,
}
use sketchlog.Sketch.Ddsketch.Weight.{AllGiven, weight-Among, Among-weight, given-finite}
use sketchlog.Log.State.Read.{max_key, min_key, is_used}
use sketchlog.Log.State.Latency.{extrema_checks}
use sketchlog.Sketch.Bins.{AllKeys}
use sketchlog.Log.State.RoundTrip.{InRange}
use sketchlog.Log.State.Histogram.{
  AllKeys-index, used-Among, Among-used, max_key-index, min_key-index,
}

module _ (f : Float) (laws : FloatKeys f) where
  open f use {F, of_nat, lt, le, eq, neg, is_nan, is_inf, inf, log, tiny, largest, millionth}

  unless : (a b : Bool) → (a ≡ true → b ≡ false) → (a && b) ≡ false
  unless true b h = h refl
  unless false b h = refl

  unless_both : (a b c : Bool) → (a ≡ true → b ≡ true → c ≡ false) → ((a && b) && c) ≡ false
  unless_both true true c h = h refl refl
  unless_both true false c h = refl
  unless_both false b c h = refl

  module _ (accuracy : F) (low : le millionth accuracy ≡ true)
      (high : lt accuracy (of_nat 1) ≡ true) where
    index-InRange :
        (x : F)
        → lt (of_nat 0) x ≡ true
        → is_nan x ≡ false
        → is_inf x ≡ false
        → InRange f accuracy ((index f accuracy) x)
    unfolding ltb_ℤ
    index-InRange x p real bounded =
        let above = key_mono f laws accuracy low high tiny x laws.tiny_pos (laws.tiny_le x p) in
        let below =
          key_mono f laws accuracy low high x largest p (laws.le_largest x real bounded) in
        ground (arith, above, below)

    module _ (d : Dd F) (xs : Stream F) (h : IsSummary f accuracy d xs) (v : IsDd d) where
      given : AllGiven xs
      given = given-finite f xs h.finite

      -- A value is finite, and between the extrema.
      real : (x : F) → Among x xs → (is_nan x ≡ false) × (is_inf x ≡ false)
      real x a = Among-finite f laws x xs h.finite a

      not_below : (x : F) → Among x xs → lt x d.min ≡ false
      not_below x a = All-Among f (λ y. lt y d.min ≡ false) xs x h.least a

      not_above : (x : F) → Among x xs → lt d.max x ≡ false
      not_above x a = All-Among f (λ y. lt d.max y ≡ false) xs x h.most a

      pub positive-InRange : AllKeys (InRange f accuracy) d.positive
      positive-InRange =
          AllKeys-index (λ x. lt (of_nat 0) x) (index f accuracy) max_int64 d.positive xs given
            v.positives.counts (positive_counts f accuracy d xs h) (InRange f accuracy)
            λ x a p. index-InRange x p (real x a).0 (real x a).1

      pub negative-InRange : AllKeys (InRange f accuracy) d.negative
      negative-InRange =
          AllKeys-index (λ x. lt x (of_nat 0)) (λ x. (index f accuracy) (neg x)) max_int64
            d.negative xs given v.negatives.counts (negative_counts f accuracy d xs h)
            (InRange f accuracy)
            λ x a p.
              let (real', bounded) = laws.neg_finite x (real x a).0 (real x a).1 in
              index-InRange (neg x) (laws.neg_pos x p) real' bounded

      module _ (some_values : 0 < d.count) where
        min-Among : Among d.min xs
        min-Among = elim (h.lowest) [
          | inr a ↦ a
          | inl (empty, _) ↦ absurd (omega (arith, some_values, no_count empty))
        ]
          where
            no_count : xs ≡ [] → d.count ≡ 0
            no_count e = h.counted ∙ rw e (unfold weight in refl)

        max-Among : Among d.max xs
        max-Among = elim (h.highest) [
          | inr a ↦ a
          | inl (empty, _) ↦ absurd (omega (arith, some_values, no_count empty))
        ]
          where
            no_count : xs ≡ [] → d.count ≡ 0
            no_count e = h.counted ∙ rw e (unfold weight in refl)

        min-le : (x : F) → Among x xs → le d.min x ≡ true
        min-le x a = laws.le_of_not_lt d.min x (real d.min min-Among).0 (real x a).0 (not_below x a)

        le-max : (x : F) → Among x xs → le x d.max ≡ true
        le-max x a = laws.le_of_not_lt x d.max (real x a).0 (real d.max max-Among).0 (not_above x a)

        -- The value of an extremum that is above, below or at zero.
        max_up : (x : F) → Among x xs → lt (of_nat 0) x ≡ true → lt (of_nat 0) d.max ≡ true
        max_up x a p = laws.lt_le_trans (of_nat 0) x d.max p (le-max x a)

        min_down : (x : F) → Among x xs → lt x (of_nat 0) ≡ true → lt d.min (of_nat 0) ≡ true
        min_down x a p = laws.le_lt_trans d.min x (of_nat 0) (min-le x a) p

        positive_used : (x : F) → Among x xs → lt (of_nat 0) x ≡ true → is_used d.positive ≡ true
        positive_used x a p =
            used-Among (λ y. lt (of_nat 0) y) (index f accuracy) max_int64 d.positive xs given
              v.positives.counts (positive_counts f accuracy d xs h) x a p

        negative_used : (x : F) → Among x xs → lt x (of_nat 0) ≡ true → is_used d.negative ≡ true
        negative_used x a p =
            used-Among (λ y. lt y (of_nat 0)) (λ y. (index f accuracy) (neg y)) max_int64 d.negative
              xs given v.negatives.counts (negative_counts f accuracy d xs h) x a p

        used_max : is_used d.positive ≡ true → lt (of_nat 0) d.max ≡ true
        used_max u =
            let (x, a, p) =
              Among-used (λ y. lt (of_nat 0) y) (index f accuracy) max_int64 d.positive xs given
                v.positives.counts (positive_counts f accuracy d xs h) u in
            max_up x a p

        used_min : is_used d.negative ≡ true → lt d.min (of_nat 0) ≡ true
        used_min u =
            let (x, a, p) =
              Among-used (λ y. lt y (of_nat 0)) (λ y. (index f accuracy) (neg y)) max_int64
                d.negative xs given v.negatives.counts (negative_counts f accuracy d xs h) u in
            min_down x a p

        zero_used : (x : F) → Among x xs → in_zero f x ≡ true → 0 < d.zero_count
        zero_used x a p = rw (h.zeros) (weight-Among (in_zero f) x xs given a p)

        -- The greatest and the least (index f accuracy) of each store.
        top_positive :
            lt (of_nat 0) d.max ≡ true
            → int_beq ((index f accuracy) d.max) (max_key d.positive) ≡ true
        top_positive p =
            rw
              (max_key-index (λ y. lt (of_nat 0) y) (index f accuracy) max_int64 d.positive xs given
                v.positives.counts (positive_counts f accuracy d xs h) d.max max-Among p
                λ y a q. key_mono f laws accuracy low high y d.max q (le-max y a))
              (beq_refl ((index f accuracy) d.max))

        bottom_positive :
            lt (of_nat 0) d.min ≡ true
            → int_beq ((index f accuracy) d.min) (min_key d.positive) ≡ true
        bottom_positive p =
            rw
              (min_key-index (λ y. lt (of_nat 0) y) (index f accuracy) max_int64 d.positive xs given
                v.positives.counts (positive_counts f accuracy d xs h) d.min min-Among p
                λ y a q. key_mono f laws accuracy low high d.min y p (min-le y a))
              (beq_refl ((index f accuracy) d.min))

        top_negative :
            lt d.min (of_nat 0) ≡ true
            → int_beq ((index f accuracy) (neg d.min)) (max_key d.negative) ≡ true
        top_negative p =
            rw
              (max_key-index (λ y. lt y (of_nat 0)) (λ y. (index f accuracy) (neg y)) max_int64
                d.negative xs given v.negatives.counts (negative_counts f accuracy d xs h) d.min
                min-Among p
                λ y a q.
                  key_mono f laws accuracy low high (neg y) (neg d.min) (laws.neg_pos y q)
                    (laws.neg_le d.min y (min-le y a)))
              (beq_refl ((index f accuracy) (neg d.min)))

        bottom_negative :
            lt d.max (of_nat 0) ≡ true
            → int_beq ((index f accuracy) (neg d.max)) (min_key d.negative) ≡ true
        bottom_negative p =
            rw
              (min_key-index (λ y. lt y (of_nat 0)) (λ y. (index f accuracy) (neg y)) max_int64
                d.negative xs given v.negatives.counts (negative_counts f accuracy d xs h) d.max
                max-Among p
                λ y a q.
                  key_mono f laws accuracy low high (neg d.max) (neg y) (laws.neg_pos d.max p)
                    (laws.neg_le y d.max (le-max y a)))
              (beq_refl ((index f accuracy) (neg d.max)))

        -- A zero among the values keeps both extrema from being on one side of it.
        zero_between :
            0 < d.zero_count → (lt (of_nat 0) d.min ≡ false) × (lt d.max (of_nat 0) ≡ false)
        unfolding in_zero
        zero_between c =
            let (x, a, p) = Among-weight (in_zero f) xs (rw (h.zeros) at c) in
            let not_up : lt (of_nat 0) x ≡ false = ground (arith, p) in
            let not_down : lt x (of_nat 0) ≡ false = ground (arith, p) in
            (
              never (λ q. cc (laws.lt_le_trans (of_nat 0) d.min x q (min-le x a), not_up)),
              never (λ q. cc (laws.le_lt_trans x d.max (of_nat 0) (le-max x a) q, not_down)),
            )

        zero_extremum : (x : F) → Among x xs → eq x (of_nat 0) ≡ true → 0 < d.zero_count
        unfolding in_zero
        zero_extremum x a e =
            let (not_down, not_up) = laws.order.eq_not_lt x (of_nat 0) e in
            zero_used x a (rw (not_up, not_down) refl)

        same_key : (x : F) → key f d x ≡ (index f accuracy) x
        same_key x = key-same f accuracy d xs h x

        pub extrema-Passes : Passes (extrema_checks f d)
        unfolding extrema_checks
        extrema-Passes =
            let (min_real, min_bounded) = real d.min min-Among in
            let (max_real, max_bounded) = real d.max max-Among in
            let p = is_used d.positive in
            let n = is_used d.negative in
            let zero_value = of_nat 0 in
            (
              rw (min_real, min_bounded, max_real, max_bounded) refl,
              (
                not_above d.min min-Among,
                (
                  unless p (le d.max zero_value)
                      (λ u. never λ e. cc (laws.order.le_not_lt d.max (of_nat 0) e, used_max u)),
                  (
                    unless p (not (int_beq (key f d d.max) (max_key d.positive)))
                        (λ u. rw (same_key d.max, top_positive (used_max u)) refl),
                    (
                      unless_both p (lt zero_value d.min)
                          (not (int_beq (key f d d.min) (min_key d.positive)))
                          (λ _ q. rw (same_key d.min, bottom_positive q) refl),
                      (
                        unless n (le zero_value d.min) (λ u.
                            never λ e. cc (laws.order.le_not_lt (of_nat 0) d.min e, used_min u)),
                        (
                          unless n (not (int_beq (key f d (neg d.min)) (max_key d.negative)))
                              (λ u. rw (same_key (neg d.min), top_negative (used_min u)) refl),
                          (
                            unless_both n (lt d.max zero_value)
                                (not (int_beq (key f d (neg d.max)) (min_key d.negative)))
                                (λ _ q. rw (same_key (neg d.max), bottom_negative q) refl),
                            (
                              unless (ltb 0 d.zero_count)
                                  (lt zero_value d.min || lt d.max zero_value)
                                  (λ c.
                                    let (q, r) = zero_between (ground (arith, c)) in
                                    rw (q, r) refl),
                              (
                                unless (not p) (lt zero_value d.max)
                                    (λ u. never λ q. cc (positive_used d.max max-Among q, u)),
                                (
                                  unless (not n) (lt d.min zero_value)
                                      (λ u. never λ q. cc (negative_used d.min min-Among q, u)),
                                  (
                                    unless (eq d.max zero_value) (nat_eq d.zero_count 0) (λ e.
                                        let z = zero_extremum d.max max-Among e in
                                        ground (arith, z)),
                                    (
                                      unless (eq d.min zero_value) (nat_eq d.zero_count 0) (λ e.
                                          let z = zero_extremum d.min min-Among e in
                                          ground (arith, z)),
                                      tt,
                                    ),
                                  ),
                                ),
                              ),
                            ),
                          ),
                        ),
                      ),
                    ),
                  ),
                ),
              ),
            )
