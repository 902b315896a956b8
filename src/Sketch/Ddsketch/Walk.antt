-- ===== src/Sketch/Ddsketch/Walk.antt =====
-- One loop of `DDSketch.quantile`: it stops at the first bucket that uses up the rank.
use sketchlog.Prelude.{ℕ, ◌≡◌, refl, ap, inl, inr, Bool, true, false, [], ◌∷◌, if◌then◌else◌}
use sketchlog.Prelude.Int.{ℤ}
use sketchlog.Prelude.Key.{int_key}
use sketchlog.Prelude.Float.{Float}
use sketchlog.Sketch.Bins.{Bins}
use sketchlog.Sketch.Ddsketch.Rank.{Place, Histogram, value_at, IsRanked}
use sketchlog.Sketch.Ddsketch.Quantile.{Walked, found, passed, walk}
use sketchlog.Sketch.Ddsketch.Places.{placed}

module _ (f : Float) where
  open f use {F, of_nat, le, sub}

  pub IsRanked-cons :
      (accuracy greatest rank : F) (b : Place) (n : ℕ) (bs : Histogram) (y : F)
      → le (sub rank (of_nat n)) (of_nat 0) ≡ false
      → IsRanked f accuracy greatest (sub rank (of_nat n)) bs y
      → IsRanked f accuracy greatest rank ((b, n) ∷ bs) y
  IsRanked-cons accuracy greatest rank b n bs y goes (inl (before, c, m, after, e, p, u, is)) =
      inl ((b, n) ∷ before, c, m, after, ap (◌∷◌ (b, n)) e, (goes, p), u, is)
  IsRanked-cons accuracy greatest rank b n bs y goes (inr (p, is)) = inr ((goes, p), is)

  pub walk-IsRanked :
      (accuracy greatest : F) (place : ℤ → Place) (bs : Histogram) (end : Walked F → F)
      → ((k : ℤ) → end (found k) ≡ value_at f accuracy (place k))
      → ((rank : F) → IsRanked f accuracy greatest rank bs (end (passed rank)))
      → (rank : F) (items : Bins)
      → IsRanked f accuracy greatest rank (placed place items bs) (end (walk f rank items))
  unfolding walk
  walk-IsRanked accuracy greatest place bs end hit go rank [] = go rank
  walk-IsRanked accuracy greatest place bs end hit go rank ((k, n) ∷ items) =
      by_test (le (sub rank (of_nat n)) (of_nat 0)) refl
        (walk-IsRanked accuracy greatest place bs end hit go (sub rank (of_nat n)) items)
    where
      by_test :
          (uses_up : Bool)
          → le (sub rank (of_nat n)) (of_nat 0) ≡ uses_up
          → IsRanked f accuracy greatest
              (sub rank (of_nat n))
              (placed place items bs)
              (end (walk f (sub rank (of_nat n)) items))
          → IsRanked f accuracy greatest rank
              ((place k, n) ∷ placed place items bs)
              (end (if uses_up then found k else walk f (sub rank (of_nat n)) items))
      by_test true ends rest = inl ([], place k, n, placed place items bs, refl, tt, ends, hit k)
      by_test false goes rest =
          IsRanked-cons accuracy greatest rank (place k) n (placed place items bs) _ goes rest
