-- ===== src/Sketch/Ddsketch/Monotone.antt =====
-- The bucket of a value grows with it, and the stores of a summary are histograms.
use mathlib.Core.Path.{subst}
use sketchlog.Prelude.{◌≡◌, refl, inl, inr, Bool, true, false, ◌&&◌, [], ◌∷◌, All}
use sketchlog.Prelude.Int.{ℤ, ◌≤ℤ◌}
use sketchlog.Prelude.Key.{int_key, ◌==◌}
use sketchlog.Prelude.Dict
use sketchlog.Prelude.Float.{Float, FloatKeys}
use sketchlog.Sketch.Ddsketch.{Dd, fresh, key}
use sketchlog.Sketch.Ddsketch.Summary.{Stream, weight, Among, in_positive, in_negative, IsSummary}

pub never : {b : Bool} → (b ≡ true → ⊥) → b ≡ false
never {b = true} h = absurd (h refl)
never {b = false} h = refl

pub always : {b : Bool} → (b ≡ false → b ≡ true) → b ≡ true
always {b = true} h = refl
always {b = false} h = h refl

module _ (f : Float) where
  open f use {F, of_nat, lt, le, neg, millionth}

  pub All-Among : (P : F → Type 0) (xs : Stream F) (y : F) → All (λ x. P x.0) xs → Among y xs → P y
  All-Among P [] y h a = absurd a
  All-Among P ((x, n) ∷ xs) y h (inl e) = subst P e h.0
  All-Among P ((x, n) ∷ xs) y h (inr a) = All-Among P xs y h.1 a

  -- The index of a value.
  abbrev pub index : F → F → ℤ
  index accuracy = key f (fresh f accuracy)

  pub key_mono :
      (laws : FloatKeys f) (accuracy : F)
      → le millionth accuracy ≡ true
      → lt accuracy (of_nat 1) ≡ true
      → (x y : F) → lt (of_nat 0) x ≡ true
      → le x y ≡ true
      → index accuracy x ≤ℤ index accuracy y
  unfolding key fresh
  key_mono laws accuracy low high x y p h =
      let (_, up, bounded) = laws.rate accuracy low high in
      laws.ceil_mono _ _ (laws.mul_mono _ _ _ up bounded (laws.log_mono x y p h))

  module _ (accuracy : F) (d : Dd F) (xs : Stream F) (h : IsSummary f accuracy d xs) where
    -- The two stores are the histograms of the positive and of the negative values.
    pub positive_counts :
        (k : ℤ)
        → Dict.get_or k 0 d.positive ≡ weight (λ x. lt (of_nat 0) x && (index accuracy x == k)) xs
    unfolding in_positive
    positive_counts k = h.positive k

    pub negative_counts :
        (k : ℤ)
        → Dict.get_or k 0 d.negative
          ≡ weight (λ x. lt x (of_nat 0) && (index accuracy (neg x) == k)) xs
    unfolding in_negative
    negative_counts k = h.negative k
