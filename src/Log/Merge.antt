-- ===== src/Log/Merge.antt =====
-- What the loops of `merge` compute when they do not raise: the sums of the two sketches, within
-- the limits of the counters.
use sketchlog.Prelude.{ℕ, ◌+◌, ◌≡◌, refl, List, [], ◌∷◌, arith, ltb, length, sum, All}
use sketchlog.Prelude.Dict
use sketchlog.Prelude.Dict.{IsDict}
use sketchlog.Prelude.Key.{int_key}
use sketchlog.Prelude.Exec.{
  Result, ok, err, refuse_if, bind, Ensures, Ensures-refuse_if, Ensures-bind,
}
use sketchlog.Sketch.Count.{max_int64}
use sketchlog.Sketch.Bins.{Bins, bump, total, IsCounts, total-bump, bump-IsCounts, bump-IsDict}
use sketchlog.Sketch.Ddsketch.{max_bins}
use sketchlog.Sketch.Ddsketch.Valid.{IsStore}
use sketchlog.Sketch.Cms.Bump.{IsRow}
use sketchlog.Log.{
  LogError, merge_bins, merge_store, merge_row, merge_table, bin_overflow, bins_full, cell_overflow,
}

-- A dictionary of counts that is the sum of two.
record IsSum (a b : ℕ) (store : Bins) : Type 0 where
  distinct : IsDict store
  counts : IsCounts max_int64 store
  sums : total store ≡ a + b

merge_bins-IsSum :
    (store other : Bins)
    → IsDict store
    → IsCounts max_int64 store
    → IsCounts max_int64 other
    → Ensures (IsSum (total store) (total other)) (merge_bins store other)
unfolding merge_bins
merge_bins-IsSum store [] d c k = record { distinct = d; counts = c; sums = omega arith }
merge_bins-IsSum store ((idx, n) ∷ other) d c k =
    Ensures-refuse_if (IsSum (total store) (total ((idx, n) ∷ other)))
      (ltb max_int64 (Dict.get_or idx 0 store + n)) bin_overflow
      (merge_bins (bump idx n store) other)
      λ room. weaken (merge_bins (bump idx n store) other) (
        merge_bins-IsSum (bump idx n store) other (bump-IsDict idx n store d)
          (bump-IsCounts max_int64 idx n store k.0.0 (ground (arith, k.0.1)) c) k.1)
  where
    weaken :
        (r : Result LogError Bins)
        → Ensures (IsSum (total (bump idx n store)) (total other)) r
        → Ensures (IsSum (total store) (total ((idx, n) ∷ other))) r
    weaken (err e) h = tt
    weaken (ok a) h = record {
      distinct = h.distinct;
      counts = h.counts;
      sums = omega (arith, h.sums, total-bump idx n store);
    }

-- The sum of two stores is a store again.
pub record IsMerged (a b : ℕ) (store : Bins) : Type 0 where
  pub valid : IsStore store
  pub sums : total store ≡ a + b

pub merge_store-IsMerged :
    (store other : Bins)
    → IsStore store
    → IsStore other
    → Ensures (IsMerged (total store) (total other)) (merge_store store other)
unfolding merge_store
merge_store-IsMerged store other v w =
    Ensures-bind (IsSum (total store) (total other)) (IsMerged (total store) (total other))
      (merge_bins store other)
      (λ merged. refuse_if (ltb max_bins (length merged)) bins_full (ok merged))
      (merge_bins-IsSum store other v.distinct v.counts w.counts)
      λ merged s.
        Ensures-refuse_if (IsMerged (total store) (total other)) (ltb max_bins (length merged))
          bins_full (ok merged)
          λ fits. record {
            valid = record { distinct = s.distinct; bounded = ground arith; counts = s.counts };
            sums = s.sums;
          }

merge_row-IsRow :
    (width : ℕ) (row other : List ℕ) (a b : ℕ)
    → IsRow width a row
    → IsRow width b other
    → Ensures (IsRow width (a + b)) (merge_row row other)
unfolding merge_row
merge_row-IsRow width [] [] a b h k = (h.0, omega (arith, h.1, k.1))
merge_row-IsRow width [] (right ∷ other) a b h k = absurd (omega (arith, h.0, k.0))
merge_row-IsRow width (left ∷ row) [] a b h k = absurd (omega (arith, h.0, k.0))
merge_row-IsRow width (left ∷ row) (right ∷ other) a b h k =
    Ensures-refuse_if (IsRow width (a + b)) (ltb max_int64 (left + right)) cell_overflow
      (bind (merge_row row other) (λ rest. ok ((left + right) ∷ rest)))
      λ _.
        Ensures-bind (IsRow (length row) (sum row + sum other)) (IsRow width (a + b))
          (merge_row row other) (λ rest. ok ((left + right) ∷ rest))
          (merge_row-IsRow (length row) row other (sum row) (sum other) (refl, refl)
            (omega (arith, h.0, k.0), refl))
          λ rest r. (omega (arith, r.0, h.0), omega (arith, r.1, h.1, k.1))

-- The shape of a table.
abbrev pub IsTable : ℕ → ℕ → ℕ → List (List ℕ) → Type 0
IsTable width depth total table = (length table ≡ depth) × All (IsRow width total) table

pub merge_table-IsTable :
    (width depth a b : ℕ) (rows others : List (List ℕ))
    → IsTable width depth a rows
    → IsTable width depth b others
    → Ensures (IsTable width depth (a + b)) (merge_table rows others)
unfolding merge_table
merge_table-IsTable width depth a b [] [] h k = (h.0, tt)
merge_table-IsTable width depth a b [] (other ∷ others) h k = absurd (omega (arith, h.0, k.0))
merge_table-IsTable width depth a b (row ∷ rows) [] h k = absurd (omega (arith, h.0, k.0))
merge_table-IsTable width depth a b (row ∷ rows) (other ∷ others) h k =
    Ensures-bind (IsRow width (a + b)) (IsTable width depth (a + b)) (merge_row row other)
      (λ merged. bind (merge_table rows others) (λ rest. ok (merged ∷ rest)))
      (merge_row-IsRow width row other a b h.1.0 k.1.0)
      λ merged m.
        Ensures-bind (IsTable width (length rows) (a + b)) (IsTable width depth (a + b))
          (merge_table rows others) (λ rest. ok (merged ∷ rest))
          (merge_table-IsTable width (length rows) a b rows others (refl, h.1.1)
            (omega (arith, h.0, k.0), k.1.1))
          λ rest r. (omega (arith, r.0, h.0), (m, r.1))
