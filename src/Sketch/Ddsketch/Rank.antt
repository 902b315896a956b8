-- ===== src/Sketch/Ddsketch/Rank.antt =====
-- What a quantile is, said of a stream of values alone: its histogram in the order of the values,
-- and the bucket at which the rank is used up.
use sketchlog.Prelude.{ℕ, ◌+◌, ◌≡◌, ◌⊎◌, Bool, true, false, List, [], ◌∷◌, ◌++◌, All}
use sketchlog.Prelude.Int.{ℤ, ltb_ℤ}
use sketchlog.Prelude.Float.{Float}
use sketchlog.Sketch.Ddsketch.{fresh, bucket_value}
use sketchlog.Sketch.Ddsketch.Summary.{Stream, weight, Among, in_positive, in_negative, in_zero}

-- The places on the number line that a sketch tells apart: the buckets of the negative values, which
-- go up as their index goes down, zero, and the buckets of the positive values.
pub data Place : Type 0 where
  below above : ℤ → Place
  at_zero : Place

abbrev pub precedes : Place → Place → Bool
precedes (below j) (below k) = ltb_ℤ k j
precedes (below j) at_zero = true
precedes (below j) (above k) = true
precedes at_zero (below k) = false
precedes at_zero at_zero = false
precedes at_zero (above k) = true
precedes (above j) (below k) = false
precedes (above j) at_zero = false
precedes (above j) (above k) = ltb_ℤ j k

-- The places with the numbers of values there.
abbrev pub Histogram : Type 0
Histogram = List (Place × ℕ)

abbrev pub tally : Histogram → ℕ
tally [] = 0
tally ((b, n) ∷ bs) = n + tally bs

-- Each place precedes all the later ones.
abbrev pub IsOrdered : Histogram → Type 0
IsOrdered [] = Unit
IsOrdered ((b, n) ∷ bs) = All (λ (c : Place × ℕ). precedes b c.0 ≡ true) bs × IsOrdered bs

module _ (f : Float) where
  open f use {F, of_nat, lt, le, sub, mul, neg}

  -- The values at a place, and its representative.
  abbrev pub is_at : F → Place → F → Bool
  is_at accuracy (below k) = in_negative f accuracy k
  is_at accuracy at_zero = in_zero f
  is_at accuracy (above k) = in_positive f accuracy k

  abbrev pub value_at : F → Place → F
  value_at accuracy (below k) = neg (bucket_value f (fresh f accuracy) k)
  value_at accuracy at_zero = of_nat 0
  value_at accuracy (above k) = bucket_value f (fresh f accuracy) k

  -- The places of all the values of a stream in their order, each with the number of its values; a
  -- value lies at no earlier place than a smaller one.
  pub record IsHistogram (accuracy : F) (xs : Stream F) (bs : Histogram) : Type 0 where
    pub ordered : IsOrdered bs
    pub counted : All (λ (b : Place × ℕ). b.1 ≡ weight (is_at accuracy b.0) xs) bs
    pub whole : tally bs ≡ weight (λ _. true) xs
    pub rising :
        (b c : Place) (x y : F)
        → is_at accuracy b x ≡ true
        → is_at accuracy c y ≡ true
        → le x y ≡ true
        → precedes c b ≡ false

  -- What is left of a rank after the counts of some places.
  abbrev pub left : F → Histogram → F
  left rank [] = rank
  left rank ((b, n) ∷ bs) = left (sub rank (of_nat n)) bs

  -- No place of them uses up the rank.
  abbrev pub IsPassed : F → Histogram → Type 0
  IsPassed rank [] = Unit
  IsPassed rank ((b, n) ∷ bs) =
      (le (sub rank (of_nat n)) (of_nat 0) ≡ false) × IsPassed (sub rank (of_nat n)) bs

  -- The representative of the first place that uses up the rank, or the greatest value if rounding
  -- leaves something of the rank after all of them.
  abbrev pub IsRanked : F → F → F → Histogram → F → Type 0
  IsRanked accuracy greatest rank bs y =
      ((before : Histogram) × (b : Place) × (n : ℕ) × (after : Histogram) × (bs
          ≡ before ++ ((b, n) ∷ after))
        × IsPassed rank before
        × (le (sub (left rank before) (of_nat n)) (of_nat 0) ≡ true)
        × (y ≡ value_at accuracy b))
      ⊎ (IsPassed rank bs × (y ≡ greatest))

  -- The least and the greatest value of a stream.
  abbrev pub IsLeast : Stream F → F → Type 0
  IsLeast xs y = Among y xs × All (λ (x : F × ℕ). lt x.0 y ≡ false) xs

  abbrev pub IsGreatest : Stream F → F → Type 0
  IsGreatest xs y = Among y xs × All (λ (x : F × ℕ). lt y x.0 ≡ false) xs

  -- The quantile of a stream: its least value from 0 down, its greatest from 1 up, and between them
  -- the place at which the part `q` of the number of the values is used up.
  abbrev pub IsQuantile : F → Stream F → F → F → Type 0
  IsQuantile accuracy xs q y =
      ((le q (of_nat 0) ≡ true) × IsLeast xs y)
      ⊎ ((le q (of_nat 0) ≡ false) × (le (of_nat 1) q ≡ true) × IsGreatest xs y)
      ⊎ ((le q (of_nat 0) ≡ false)
          × (le (of_nat 1) q ≡ false)
          × (bs : Histogram) × IsHistogram accuracy xs bs
          × (greatest : F) × IsGreatest xs greatest
          × IsRanked accuracy greatest (mul q (of_nat (weight (λ _. true) xs))) bs y)
