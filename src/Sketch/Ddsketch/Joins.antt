-- ===== src/Sketch/Ddsketch/Joins.antt =====
-- Two sketches of one accuracy, joined: a value added, a batch committed, and a merge are such
-- sums, and each is a summary of the values of both.
use sketchlog.Prelude.{
  ℕ, ◌+◌, ◌≡◌, refl, ap, ◌∙◌, ◌⊎◌, inl, inr, true, false, [], ◌∷◌, ◌++◌, arith, if◌then◌else◌,
  Bool-cases,
}
use sketchlog.Prelude.Int.{ℤ, pos}
use sketchlog.Prelude.Key.{int_key}
use sketchlog.Prelude.Dict
use sketchlog.Prelude.Float.{Float, FloatKeys, fmin, fmax}
use sketchlog.Sketch.Bins.{bump, get_or-bump}
use sketchlog.Sketch.Ddsketch.Outcome.{add-Outcome}
use sketchlog.Sketch.Count.{Count, int}
use sketchlog.Sketch.Bins.{Bins}
use sketchlog.Sketch.Ddsketch.{Dd, fresh, key, commit, add}
use sketchlog.Sketch.Ddsketch.Summary.{
  Stream, weight, weight-append, All-append, in_positive, in_negative, in_zero, IsFinite,
  IsAccurate, is_inaccurate-same, IsSummary, key-same,
}
use sketchlog.Sketch.Ddsketch.Extrema.{IsLeast-append, IsMost-append}

module _ (f : Float) where
  open f use {F, of_nat, lt, le, eq, neg, abs, is_nan, is_inf, inf}

  module _ (laws : FloatKeys f) where
    -- Two sketches of one accuracy whose counters are added and whose extrema are compared.
    pub record Joins (s t u : Dd F) : Type 0 where
      pub alpha : u.alpha ≡ s.alpha
      pub gamma : u.gamma ≡ s.gamma
      pub multiplier : u.multiplier ≡ s.multiplier
      pub positive :
          (k : ℤ)
          → Dict.get_or k 0 u.positive ≡ Dict.get_or k 0 s.positive + Dict.get_or k 0 t.positive
      pub negative :
          (k : ℤ)
          → Dict.get_or k 0 u.negative ≡ Dict.get_or k 0 s.negative + Dict.get_or k 0 t.negative
      pub zeros : u.zero_count ≡ s.zero_count + t.zero_count
      pub count : u.count ≡ s.count + t.count
      pub min : u.min ≡ fmin f s.min t.min
      pub max : u.max ≡ fmax f s.max t.max

    pub Joins-IsSummary :
        (accuracy : F) (s t u : Dd F) (xs ys : Stream F)
        → Joins s t u
        → IsSummary f accuracy s xs
        → IsSummary f accuracy t ys
        → IsSummary f accuracy u (xs ++ ys)
    Joins-IsSummary accuracy s t u xs ys j h k =
        let least =
          IsLeast-append f laws xs ys (h.finite) (k.finite) (s.min) (t.min) (h.least, h.lowest)
            (k.least, k.lowest) in
        let most =
          IsMost-append f laws xs ys (h.finite) (k.finite) (s.max) (t.max) (h.most, h.highest)
            (k.most, k.highest) in
        record {
          alpha = j.alpha ∙ h.alpha;
          gamma = j.gamma ∙ h.gamma;
          multiplier = j.multiplier ∙ h.multiplier;
          finite = All-append (IsFinite f) xs ys h.finite k.finite;
          accurate = All-append (IsAccurate f accuracy) xs ys h.accurate k.accurate;
          positive = λ i. ground (
            arith,
            j.positive i,
            h.positive i,
            k.positive i,
            weight-append (in_positive f accuracy i) xs ys,
          );
          negative = λ i. ground (
            arith,
            j.negative i,
            h.negative i,
            k.negative i,
            weight-append (in_negative f accuracy i) xs ys,
          );
          zeros = omega (arith, j.zeros, h.zeros, k.zeros, weight-append (in_zero f) xs ys);
          counted = omega (arith, j.count, h.counted, k.counted, weight-append (λ _. true) xs ys);
          least = rw (j.min) (least.0);
          most = rw (j.max) (most.0);
          lowest = rw (j.min) (least.1);
          highest = rw (j.max) (most.1);
        }

    -- A sketch of one value.
    abbrev single : F → F → ℕ → Dd F
    single accuracy value n = record (fresh f accuracy) {
      positive = if lt (of_nat 0) value then (key f (fresh f accuracy) value, n) ∷ [] else [];
      negative = if lt value (of_nat 0) then (key f (fresh f accuracy) (neg value), n) ∷ [] else [];
      zero_count = if in_zero f value then n else 0;
      count = n;
      min = value;
      max = value;
    }

    single-IsSummary :
        (accuracy value : F) (n : ℕ)
        → IsFinite f (value, n)
        → IsAccurate f accuracy (value, n)
        → IsSummary f accuracy (single accuracy value n) ((value, n) ∷ [])
    unfolding fresh weight Dict.get_or in_positive in_negative
    single-IsSummary accuracy value n h accurate =
        let irreflexive : lt value value ≡ false =
          ground (arith, laws.order.lt_asymm value value) in
        record {
          alpha = refl;
          gamma = refl;
          multiplier = refl;
          finite = (h, tt);
          accurate = (accurate, tt);
          positive = λ k. ground arith;
          negative = λ k. ground arith;
          zeros = ground arith;
          counted = omega arith;
          least = (irreflexive, tt);
          most = (irreflexive, tt);
          lowest = inr (inl refl);
          highest = inr (inl refl);
        }

    -- A value counted in one bucket of a store.
    bump-single :
        (idx j k : ℤ) (n : ℕ) (store : Bins)
        → idx ≡ j
        → Dict.get_or k 0 (bump idx n store) ≡ Dict.get_or k 0 store + Dict.get_or k 0 ((j, n) ∷ [])
    bump-single idx j k n store e =
        rw (get_or-bump idx k n store, e) (unfold Dict.get_or in ground arith)

    same_store :
        (k : ℤ) (store : Bins) → Dict.get_or k 0 store ≡ Dict.get_or k 0 store + Dict.get_or k 0 []
    unfolding Dict.get_or
    same_store k store = omega arith

    -- What `add` writes for a value.
    commit-Joins :
        (accuracy value : F) (n : ℕ) (s : Dd F) (xs : Stream F)
        → IsSummary f accuracy s xs
        → Joins s (single accuracy value n) (commit f value n s)
    unfolding commit in_zero
    commit-Joins accuracy value n s xs h = elim (Bool-cases (lt (of_nat 0) value)) [
      | inl up ↦
          let not_down = laws.order.lt_asymm (of_nat 0) value up in
          rw (up, not_down)
            (record {
              alpha = refl;
              gamma = refl;
              multiplier = refl;
              positive = λ k. bump-single _ _ k n s.positive (key-same f accuracy s xs h value);
              negative = λ k. same_store k s.negative;
              zeros = omega arith;
              count = refl;
              min = refl;
              max = refl;
            })
      | inr not_up ↦ elim (Bool-cases (lt value (of_nat 0))) [
        | inl down ↦
            rw (not_up, down)
              (record {
                alpha = refl;
                gamma = refl;
                multiplier = refl;
                positive = λ k. same_store k s.positive;
                negative =
                    λ k. bump-single _ _ k n s.negative (key-same f accuracy s xs h (neg value));
                zeros = omega arith;
                count = refl;
                min = refl;
                max = refl;
              })
        | inr not_down ↦
            rw (not_up, not_down)
              (record {
                alpha = refl;
                gamma = refl;
                multiplier = refl;
                positive = λ k. same_store k s.positive;
                negative = λ k. same_store k s.negative;
                zeros = refl;
                count = refl;
                min = refl;
                max = refl;
              })
      ]
    ]

    -- A value that is finite, with its count, joins the values of the sketch.
    pub commit-IsSummary :
        (accuracy value : F) (n : ℕ) (s : Dd F) (xs : Stream F)
        → IsFinite f (value, n)
        → IsAccurate f accuracy (value, n)
        → IsSummary f accuracy s xs
        → IsSummary f accuracy (commit f value n s) (xs ++ (value, n) ∷ [])
    commit-IsSummary accuracy value n s xs p accurate h =
        Joins-IsSummary accuracy s (single accuracy value n) (commit f value n s) xs
          ((value, n) ∷ []) (commit-Joins accuracy value n s xs h) h
          (single-IsSummary accuracy value n p accurate)

    -- `add` leaves a sketch that summarises the same values, or those and the new one with its
    -- count.
    pub add-IsSummary :
        (value : F) (count : Count) (accuracy : F) (s : Dd F) (xs : Stream F)
        → IsSummary f accuracy s xs
        → ((add f value count s).1 ≡ s)
          ⊎ ((n : ℕ) × (count ≡ int (pos n))
              × IsSummary f accuracy (add f value count s).1 (xs ++ (value, n) ∷ []))
    add-IsSummary value count accuracy s xs h = elim (add-Outcome f value count s) [
      | inl (r, same) ↦ inl (ap (λ x. x.1) same)
      | inr (n, is, a, done) ↦ inr (
        n,
        is,
        rw done (
            commit-IsSummary accuracy value n s xs (a.finite.0, a.finite.1, a.positive)
              (λ nonzero.
                rw (← is_inaccurate-same f accuracy s xs h (abs value)) (a.accurate nonzero))
              h),
      )
    ]
