-- ===== src/Sketch/Ddsketch/Quantile.antt =====
-- `DDSketch.quantile`: the walk over the buckets in their order.
use sketchlog.Prelude.{ℕ, Bool, ◌||◌, [], ◌∷◌, ◌==◌ as nat_eq, if◌then◌else◌}
use sketchlog.Prelude.Int.{ℤ, ltb_ℤ}
use sketchlog.Prelude.Key.{int_key}
use sketchlog.Prelude.Exec.{Result, ok, refuse_if}
use sketchlog.Prelude.Float.{Float}
use sketchlog.Sketch.Bins.{Bins}
use sketchlog.Sketch.Ddsketch.{Dd, DdError, bad_quantile, bucket_value}

-- The items of a store in the order of their keys, which are distinct.
unfoldable pub insert_item : (ℤ → ℤ → Bool) → ℤ → ℕ → Bins → Bins
insert_item before k n [] = (k, n) ∷ []
insert_item before k n ((j, m) ∷ items) =
    let rest = insert_item before k n items in
    if before j k then (j, m) ∷ rest else (k, n) ∷ (j, m) ∷ items

unfoldable pub sorted_items : (ℤ → ℤ → Bool) → Bins → Bins
sorted_items before [] = []
sorted_items before ((k, n) ∷ store) = insert_item before k n (sorted_items before store)

abbrev pub ascending : ℤ → ℤ → Bool
ascending = ltb_ℤ

abbrev pub descending : ℤ → ℤ → Bool
descending j k = ltb_ℤ k j

-- A walk ends in a bucket, or goes past all of them with what is left of the rank.
pub data Walked (F : Type 0) : Type 0 where
  found : ℤ → Walked F
  passed : F → Walked F

module _ (f : Float) where
  open f use {F, of_nat, lt, le, mul, sub, neg, is_nan, is_inf}

  unfoldable pub walk : F → Bins → Walked F
  walk rank [] = passed rank
  walk rank ((k, n) ∷ items) =
      let next = walk (sub rank (of_nat n)) items in
      if le (sub rank (of_nat n)) (of_nat 0) then found k else next

  abbrev pub end_positive : Dd F → Walked F → F
  end_positive s (found k) = bucket_value f s k
  end_positive s (passed rank) = s.max

  -- The zero bucket, then the positive buckets.
  unfoldable pub walk_zero : Dd F → F → F
  walk_zero s rank =
      let left = sub rank (of_nat s.zero_count) in
      if le left (of_nat 0)
      then of_nat 0
      else end_positive s (walk left (sorted_items ascending s.positive))

  abbrev pub end_negative : Dd F → Walked F → F
  end_negative s (found k) = neg (bucket_value f s k)
  end_negative s (passed rank) = walk_zero s rank

  unfoldable pub quantile : F → Dd F → Result DdError F
  quantile q s = refuse_if (is_nan q || is_inf q) bad_quantile (
      if nat_eq s.count 0
      then ok (of_nat 0)
      else if le q (of_nat 0)
      then ok s.min
      else if le (of_nat 1) q
      then ok s.max
      else ok (end_negative s (walk (mul q (of_nat s.count)) (sorted_items descending s.negative))))
