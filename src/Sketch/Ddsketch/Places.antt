-- ===== src/Sketch/Ddsketch/Places.antt =====
-- The places of a sketch: the items of a store in their order, and the values that lie there.
use sketchlog.Prelude.{ℕ, ◌+◌, ◌≡◌, refl, Bool, true, false, ◌&&◌, [], ◌∷◌, arith, All}
use sketchlog.Prelude.Int.{ℤ, ltb_ℤ, ◌≤ℤ◌}
use sketchlog.Prelude.Key.{int_key, ◌==◌}
use sketchlog.Prelude.Float.{Float, FloatKeys}
use sketchlog.Sketch.Bins.{Bins, total}
use sketchlog.Sketch.Ddsketch.Summary.{in_positive, in_negative, in_zero, All-map}
use sketchlog.Sketch.Ddsketch.Sorted.{IsSorted}
use sketchlog.Sketch.Ddsketch.Rank.{
  Place, below, above, at_zero, precedes, Histogram, tally, IsOrdered, is_at,
}
use sketchlog.Sketch.Ddsketch.Monotone.{index, key_mono}

-- The items of a store, at their places.
abbrev pub placed : (ℤ → Place) → Bins → Histogram → Histogram
placed place [] bs = bs
placed place ((k, n) ∷ items) bs = (place k, n) ∷ placed place items bs

pub placed-All :
    (P : Place × ℕ → Type 0) (place : ℤ → Place) (items : Bins) (bs : Histogram)
    → All (λ (i : ℤ × ℕ). P (place i.0, i.1)) items
    → All P bs
    → All P (placed place items bs)
placed-All P place [] bs g h = h
placed-All P place ((k, n) ∷ items) bs g h = (g.0, placed-All P place items bs g.1 h)

pub placed-IsOrdered :
    (place : ℤ → Place) (before : ℤ → ℤ → Bool)
    → ((j k : ℤ) → before j k ≡ true → precedes (place j) (place k) ≡ true)
    → (items : Bins) (bs : Histogram) → IsSorted before items
    → ((k : ℤ) → All (λ (c : Place × ℕ). precedes (place k) c.0 ≡ true) bs)
    → IsOrdered bs
    → IsOrdered (placed place items bs)
placed-IsOrdered place before keep [] bs o later h = h
placed-IsOrdered place before keep ((k, n) ∷ items) bs o later h = (
  placed-All (λ c. precedes (place k) c.0 ≡ true) place items bs
      (All-map (λ i. before k i.0 ≡ true) (λ i. precedes (place k) (place i.0) ≡ true) items
        (λ i b. keep k i.0 b) o.0)
      (later k),
  placed-IsOrdered place before keep items bs o.1 later h,
)

pub tally-placed :
    (place : ℤ → Place) (items : Bins) (bs : Histogram)
    → tally (placed place items bs) ≡ total items + tally bs
tally-placed place [] bs = omega arith
tally-placed place ((k, n) ∷ items) bs = omega (arith, tally-placed place items bs)

module _ (f : Float) where
  open f use {F, of_nat, lt, le, neg}

  module _ (laws : FloatKeys f) (accuracy : F) (low : le f.millionth accuracy ≡ true)
      (high : lt accuracy (of_nat 1) ≡ true) where
    not_below_zero :
        (x y : F) → le x y ≡ true → lt y (of_nat 0) ≡ true → lt x (of_nat 0) ≡ false → ⊥
    not_below_zero x y up b a = cc (laws.le_lt_trans x y (of_nat 0) up b, a)

    positive_mono :
        (j k : ℤ) (x y : F)
        → (lt (of_nat 0) x && (index f accuracy x == j)) ≡ true
        → (lt (of_nat 0) y && (index f accuracy y == k)) ≡ true
        → le x y ≡ true
        → ltb_ℤ k j ≡ false
    unfolding ltb_ℤ
    positive_mono j k x y a b up =
        let e = (int_key.beq_iff (index f accuracy x) j).0 (ground (arith, a)) in
        let e' = (int_key.beq_iff (index f accuracy y) k).0 (ground (arith, b)) in
        let m = key_mono f laws accuracy low high x y (ground (arith, a)) up in
        in_order j k (rw (e, e') at m)
      where
        in_order : (j k : ℤ) → j ≤ℤ k → ltb_ℤ k j ≡ false
        in_order j k h = ground (arith, h)

    -- A value lies at no earlier place than a smaller one.
    pub is_at_mono :
        (b c : Place) (x y : F)
        → is_at f accuracy b x ≡ true
        → is_at f accuracy c y ≡ true
        → le x y ≡ true
        → precedes c b ≡ false
    unfolding in_positive in_negative in_zero
    is_at_mono (below j) (below k) x y a b up =
        positive_mono k j (neg y) (neg x)
          (rw (laws.neg_pos y (ground (arith, b))) (ground (arith, b)))
          (rw (laws.neg_pos x (ground (arith, a))) (ground (arith, a))) (laws.neg_le x y up)
    is_at_mono (below j) at_zero x y a b up = refl
    is_at_mono (below j) (above k) x y a b up = refl
    is_at_mono at_zero (below k) x y a b up =
        absurd (not_below_zero x y up (ground (arith, b)) (ground (arith, a)))
    is_at_mono at_zero at_zero x y a b up = refl
    is_at_mono at_zero (above k) x y a b up = refl
    is_at_mono (above j) (below k) x y a b up = absurd (
        not_below_zero x y up (ground (arith, b))
          (laws.order.lt_asymm (of_nat 0) x (ground (arith, a))))
    is_at_mono (above j) at_zero x y a b up =
        absurd (cc (laws.lt_le_trans (of_nat 0) x y (ground (arith, a)) up, not_up))
      where
        not_up : lt (of_nat 0) y ≡ false
        not_up = ground (arith, b)
    is_at_mono (above j) (above k) x y a b up = positive_mono j k x y a b up
