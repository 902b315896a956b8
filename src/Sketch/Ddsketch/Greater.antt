-- ===== src/Sketch/Ddsketch/Greater.antt =====
-- `count_greater_than` against the values that the sketch summarises.
use sketchlog.Prelude.{
  ◌+◌, ◌≤◌, ◌≡◌, refl, sym, ◌∙◌, inl, inr, Bool, true, false, not, ◌&&◌, [], ◌∷◌, arith,
  ◌==◌ as nat_eq, Bool-cases,
}
use sketchlog.Prelude.Int.{ℤ, ltb_ℤ, ◌≤ℤ◌}
use sketchlog.Prelude.Float.{Float, FloatKeys}
use sketchlog.Sketch.Bins.{Bins, total}
use sketchlog.Sketch.Ddsketch.{Dd, key, count_where, count_greater_than}
use sketchlog.Sketch.Ddsketch.Valid.{IsDd}
use sketchlog.Sketch.Ddsketch.Summary.{Stream, weight, Among, in_zero, IsSummary, key-same}
use sketchlog.Sketch.Ddsketch.Extrema.{Among-finite}
use sketchlog.Sketch.Ddsketch.Monotone.{
  always, All-Among, index, key_mono, positive_counts, negative_counts,
}
use sketchlog.Sketch.Ddsketch.Weight.{
  AllGiven, given-finite, weight-false, weight_mono, weight_split, count_where-weight,
}

count_where-total : (store : Bins) → count_where (λ _. true) store ≡ total store
unfolding count_where
count_where-total [] = refl
count_where-total ((k, n) ∷ store) = rw (count_where-total store) refl

ge-ltb_ℤ : (a b : ℤ) → a ≤ℤ b → not (ltb_ℤ b a) ≡ true
unfolding ltb_ℤ
ge-ltb_ℤ a b h = ground arith

both_true : (a b : Bool) → a ≡ true → b ≡ true → (a && b) ≡ true
both_true a b h k = rw (h, k) refl

module _ (f : Float) (laws : FloatKeys f) (accuracy : f.F) (low : f.le f.millionth accuracy ≡ true)
    (high : f.lt accuracy (f.of_nat 1) ≡ true) (d : Dd f.F) (xs : Stream f.F)
    (h : IsSummary f accuracy d xs) (v : IsDd d) where
  open f use {F, of_nat, lt, le, eq, neg, is_nan, is_inf}

  given : AllGiven xs
  given = given-finite f xs h.finite

  -- A test of the index, counted in a store.
  positive_where :
      (test : ℤ → Bool)
      → count_where test d.positive ≡ weight (λ x. lt (of_nat 0) x && test (index f accuracy x)) xs
  positive_where test =
      count_where-weight (index f accuracy) test xs given (λ x. lt (of_nat 0) x) d.positive
        v.positives.distinct (positive_counts f accuracy d xs h)

  negative_where :
      (test : ℤ → Bool)
      → count_where test d.negative
        ≡ weight (λ x. lt x (of_nat 0) && test (index f accuracy (neg x))) xs
  negative_where test =
      count_where-weight (λ x. index f accuracy (neg x)) test xs given (λ x. lt x (of_nat 0))
        d.negative v.negatives.distinct (negative_counts f accuracy d xs h)

  total_positive : total d.positive ≡ weight (λ x. lt (of_nat 0) x && true) xs
  total_positive = sym (count_where-total d.positive) ∙ positive_where (λ _. true)

  -- A value that is above a number is at least that number.
  above_le : (t x : F) → is_nan t ≡ false → Among x xs → lt t x ≡ true → le t x ≡ true
  above_le t x real a p =
      laws.le_of_not_lt t x real (Among-finite f laws x xs h.finite a).0 (laws.order.lt_asymm t x p)

  module _ (t : F) (real : is_nan t ≡ false) where
    -- The branch of a negative threshold, one part of the values after the other.
    below_zero :
        lt t (of_nat 0) ≡ true
        → weight (λ x. lt t x) xs
          ≤ count_where (λ k. not (ltb_ℤ (key f d (neg t)) k)) d.negative
            + d.zero_count
            + total d.positive
    unfolding in_zero
    below_zero down =
        let test : ℤ → Bool = λ k. not (ltb_ℤ (key f d (neg t)) k) in
        let by_sign = weight_split (λ x. lt t x) (λ x. lt x (of_nat 0)) xs in
        let by_zero =
          weight_split (λ x. lt t x && not (lt x (of_nat 0))) (λ x. lt (of_nat 0) x) xs in
        let negatives =
          weight_mono (λ x. lt t x && lt x (of_nat 0))
            (λ x. lt x (of_nat 0) && test (index f accuracy (neg x))) xs
            λ x a p.
              let above : lt t x ≡ true = ground (arith, p) in
              let under : lt x (of_nat 0) ≡ true = ground (arith, p) in
              let le' =
                key_mono f laws accuracy low high (neg x) (neg t) (laws.neg_pos x under)
                  (laws.neg_le t x (above_le t x real a above)) in
              both_true (lt x (of_nat 0)) (test (index f accuracy (neg x))) under
                (rw (key-same f accuracy d xs h (neg t)) (ge-ltb_ℤ _ _ le')) in
        let positives =
          weight_mono (λ x. (lt t x && not (lt x (of_nat 0))) && lt (of_nat 0) x)
            (λ x. lt (of_nat 0) x && true) xs λ x a p. ground (arith, p) in
        let zeros_of =
          weight_mono (λ x. (lt t x && not (lt x (of_nat 0))) && not (lt (of_nat 0) x)) (in_zero f)
            xs λ x a p. ground (arith, p) in
        ground (
          arith,
          by_sign,
          by_zero,
          negatives,
          positives,
          zeros_of,
          negative_where test,
          total_positive,
          h.zeros,
        )

    -- The branches of a threshold that is not negative.
    above_zero : lt t (of_nat 0) ≡ false → (x : F) → lt t x ≡ true → lt (of_nat 0) x ≡ true
    above_zero up x p =
        laws.le_lt_trans (of_nat 0) t x
          (laws.le_of_not_lt (of_nat 0) t (laws.order.of_nat-not_nan 0) real up) p

    at_zero : lt t (of_nat 0) ≡ false → weight (λ x. lt t x) xs ≤ total d.positive
    at_zero up =
        let all =
          weight_mono (λ x. lt t x) (λ x. lt (of_nat 0) x && true) xs
            λ x a p. both_true (lt (of_nat 0) x) true (above_zero up x p) refl in
        omega (arith, all, total_positive)

    over_zero :
        lt t (of_nat 0) ≡ false
        → eq t (of_nat 0) ≡ false
        → weight (λ x. lt t x) xs ≤ count_where (λ k. not (ltb_ℤ k (key f d t))) d.positive
    over_zero up nonzero =
        let positive : lt (of_nat 0) t ≡ true = always λ not_above. cc (
          laws.order.lt_of_ne t (of_nat 0) real (laws.order.of_nat-not_nan 0) nonzero not_above,
          up,
        ) in
        let test : ℤ → Bool = λ k. not (ltb_ℤ k (key f d t)) in
        let all =
          weight_mono (λ x. lt t x) (λ x. lt (of_nat 0) x && test (index f accuracy x)) xs
            λ x a p. both_true (lt (of_nat 0) x) (test (index f accuracy x)) (above_zero up x p) (
              rw (key-same f accuracy d xs h t) (
                ge-ltb_ℤ _ _
                  (key_mono f laws accuracy low high t x positive (above_le t x real a p)))) in
        omega (arith, all, positive_where test)

    over_max : le d.max t ≡ true → weight (λ x. lt t x) xs ≡ 0
    over_max over =
        let none_above =
          weight_mono (λ x. lt t x) (λ _. false) xs
            λ x a p.
              let inside = All-Among f (λ y. lt d.max y ≡ false) xs x h.most a in
              let outside = laws.le_lt_trans d.max t x over p in cc (inside, outside) in
        omega (arith, none_above, weight-false xs)

    -- No latency above a threshold is missed: `count_greater_than` is at least the number of the
    -- values of the sketch that are greater, for any threshold that is not NaN.
    pub count_greater_than-counts : weight (λ x. lt t x) xs ≤ count_greater_than f d t
    unfolding count_greater_than
    count_greater_than-counts =
        let all = weight_mono (λ x. lt t x) (λ _. true) xs λ x a p. refl in
        elim (Bool-cases (nat_eq d.count 0)) [
          | inl empty ↦ rw empty (ground (arith, all, h.counted, empty))
          | inr used ↦ elim (Bool-cases (le d.max t)) [
            | inl over ↦ rw (used, over) (omega (arith, over_max over))
            | inr inside ↦ elim (Bool-cases (lt t d.min)) [
              | inl under ↦ rw (used, inside, under) (omega (arith, all, h.counted))
              | inr within ↦ elim (Bool-cases (lt t (of_nat 0))) [
                | inl down ↦ rw (used, inside, within, down) (below_zero down)
                | inr up ↦ elim (Bool-cases (eq t (of_nat 0))) [
                  | inl is_zero ↦ rw (used, inside, within, up, is_zero) (at_zero up)
                  | inr nonzero ↦ rw (used, inside, within, up, nonzero) (over_zero up nonzero)
                ]
              ]
            ]
          ]
        ]
