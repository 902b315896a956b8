-- ===== src/Sketch/Ddsketch/Extrema.antt =====
-- The extrema of two streams of values together.
use sketchlog.Prelude.{◌≡◌, refl, ◌⊎◌, inl, inr, true, false, [], ◌∷◌, ◌++◌, Bool-cases, All}
use sketchlog.Prelude.Key.{int_key}
use sketchlog.Prelude.Float.{Float, FloatKeys, fmin, fmax}
use sketchlog.Sketch.Ddsketch.Summary.{Stream, Among, Among-append, All-append, All-map, IsFinite}

module _ (f : Float) where
  open f use {F, of_nat, lt, le, eq, neg, abs, is_nan, is_inf, inf}

  -- The extrema of two streams together.
  module _ (laws : FloatKeys f) where
    abbrev pub IsLeast : F → Stream F → Type 0
    IsLeast m xs = All (λ x. lt x.0 m ≡ false) xs × (((xs ≡ []) × (m ≡ inf)) ⊎ Among m xs)

    abbrev pub IsMost : F → Stream F → Type 0
    IsMost m xs = All (λ x. lt m x.0 ≡ false) xs × (((xs ≡ []) × (m ≡ neg inf)) ⊎ Among m xs)

    pub Among-finite :
        (y : F) (xs : Stream F)
        → All (IsFinite f) xs
        → Among y xs
        → (is_nan y ≡ false) × (is_inf y ≡ false)
    Among-finite y [] h a = absurd a
    Among-finite y ((x, n) ∷ xs) h (inl e) = rw (← e) (h.0.0, h.0.1)
    Among-finite y ((x, n) ∷ xs) h (inr a) = Among-finite y xs h.1 a

    pub Among-lt_inf : (y : F) (xs : Stream F) → All (IsFinite f) xs → Among y xs → lt y inf ≡ true
    Among-lt_inf y xs h a =
        let (real, bounded) = Among-finite y xs h a in laws.lt_inf y real bounded

    pub Among-inf_lt :
        (y : F) (xs : Stream F) → All (IsFinite f) xs → Among y xs → lt (neg inf) y ≡ true
    Among-inf_lt y xs h a =
        let (real, bounded) = Among-finite y xs h a in laws.inf_lt y real bounded

    least-not_nan : (m : F) (xs : Stream F) → All (IsFinite f) xs → IsLeast m xs → is_nan m ≡ false
    least-not_nan m xs h (_, inl (_, e)) = rw e (laws.inf-not_nan.0)
    least-not_nan m xs h (_, inr a) = (Among-finite m xs h a).0

    most-not_nan : (m : F) (xs : Stream F) → All (IsFinite f) xs → IsMost m xs → is_nan m ≡ false
    most-not_nan m xs h (_, inl (_, e)) = rw e (laws.inf-not_nan.1)
    most-not_nan m xs h (_, inr a) = (Among-finite m xs h a).0

    -- What is strictly below a bound of a stream bounds it, too.
    below :
        (a b : F) (xs : Stream F)
        → lt b a ≡ true
        → All (λ x. lt x.0 a ≡ false) xs
        → All (λ x. lt x.0 b ≡ false) xs
    below a b xs h =
        All-map (λ x. lt x.0 a ≡ false) (λ x. lt x.0 b ≡ false) xs
          λ x k. elim (Bool-cases (lt x.0 b)) [
            | inl u ↦ cc (laws.order.lt_trans x.0 b a u h)
            | inr u ↦ u
          ]

    below_le :
        (a b : F) (ys : Stream F)
        → le a b ≡ true
        → All (λ x. lt x.0 b ≡ false) ys
        → All (λ x. lt x.0 a ≡ false) ys
    below_le a b ys h =
        All-map (λ x. lt x.0 b ≡ false) (λ x. lt x.0 a ≡ false) ys
          λ x k. elim (Bool-cases (lt x.0 a)) [
            | inl u ↦ cc (laws.lt_le_trans x.0 a b u h)
            | inr u ↦ u
          ]

    above :
        (a b : F) (xs : Stream F)
        → lt a b ≡ true
        → All (λ x. lt a x.0 ≡ false) xs
        → All (λ x. lt b x.0 ≡ false) xs
    above a b xs h =
        All-map (λ x. lt a x.0 ≡ false) (λ x. lt b x.0 ≡ false) xs
          λ x k. elim (Bool-cases (lt b x.0)) [
            | inl u ↦ cc (laws.order.lt_trans a b x.0 h u)
            | inr u ↦ u
          ]

    above_le :
        (a b : F) (ys : Stream F)
        → le b a ≡ true
        → All (λ x. lt b x.0 ≡ false) ys
        → All (λ x. lt a x.0 ≡ false) ys
    above_le a b ys h =
        All-map (λ x. lt b x.0 ≡ false) (λ x. lt a x.0 ≡ false) ys
          λ x k. elim (Bool-cases (lt a x.0)) [
            | inl u ↦ cc (laws.le_lt_trans b a x.0 h u)
            | inr u ↦ u
          ]

    module _ (xs ys : Stream F) (p : All (IsFinite f) xs) (q : All (IsFinite f) ys) where
      pub IsLeast-append : (a b : F) → IsLeast a xs → IsLeast b ys → IsLeast (fmin f a b) (xs ++ ys)
      IsLeast-append a b h k = elim (Bool-cases (lt b a)) [
        | inl smaller ↦ rw smaller (
          All-append (λ x. lt x.0 b ≡ false) xs ys (below a b xs smaller h.0) k.0,
          elim (k.1) [
            | inr at ↦ inr (Among-append b xs ys (inr at))
            | inl (none_of, is_inf) ↦ elim (h.1) [
              | inl (empty, is_inf') ↦ inl (rw (none_of, empty) refl, is_inf)
              | inr at ↦
                  let up = laws.order.lt_asymm a inf (Among-lt_inf a xs p at) in
                  cc (up, is_inf, smaller)
            ]
          ],
        )
        | inr other ↦ rw other (
          All-append (λ x. lt x.0 a ≡ false) xs ys h.0
              (below_le a b ys
                (laws.le_of_not_lt a b (least-not_nan a xs p h) (least-not_nan b ys q k) other)
                k.0),
          elim (h.1) [
            | inr at ↦ inr (Among-append a xs ys (inl at))
            | inl (none_of, is_inf) ↦ elim (k.1) [
              | inl (empty, _) ↦ inl (rw (none_of, empty) refl, is_inf)
              | inr at ↦ cc (Among-lt_inf b ys q at, is_inf, other)
            ]
          ],
        )
      ]

      pub IsMost-append : (a b : F) → IsMost a xs → IsMost b ys → IsMost (fmax f a b) (xs ++ ys)
      IsMost-append a b h k = elim (Bool-cases (lt a b)) [
        | inl larger ↦ rw larger (
          All-append (λ x. lt b x.0 ≡ false) xs ys (above a b xs larger h.0) k.0,
          elim (k.1) [
            | inr at ↦ inr (Among-append b xs ys (inr at))
            | inl (none_of, is_inf) ↦ elim (h.1) [
              | inl (empty, is_inf') ↦ inl (rw (none_of, empty) refl, is_inf)
              | inr at ↦
                  let up = laws.order.lt_asymm (neg inf) a (Among-inf_lt a xs p at) in
                  cc (up, is_inf, larger)
            ]
          ],
        )
        | inr other ↦ rw other (
          All-append (λ x. lt a x.0 ≡ false) xs ys h.0
              (above_le a b ys
                (laws.le_of_not_lt b a (most-not_nan b ys q k) (most-not_nan a xs p h) other) k.0),
          elim (h.1) [
            | inr at ↦ inr (Among-append a xs ys (inl at))
            | inl (none_of, is_inf) ↦ elim (k.1) [
              | inl (empty, _) ↦ inl (rw (none_of, empty) refl, is_inf)
              | inr at ↦ cc (Among-inf_lt b ys q at, is_inf, other)
            ]
          ],
        )
      ]
