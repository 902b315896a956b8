-- ===== src/Sketch/Ddsketch/Seen.antt =====
-- What `quantile` returns is a value of the stream, or stands for one.
use sketchlog.Prelude.{
  ℕ, ◌<◌, ◌≡◌, refl, ◌∙◌, ◌⊎◌, inl, inr, Bool, true, false, ◌&&◌, [], ◌∷◌, arith, ◌==◌ as nat_eq,
  if◌then◌else◌, Bool-cases,
}
use sketchlog.Prelude.Int.{ℤ}
use sketchlog.Prelude.Key.{int_key, ◌==◌}
use sketchlog.Prelude.Exec.{ok}
use sketchlog.Prelude.Float.{Float, FloatKeys}
use sketchlog.Sketch.Bins.{Bins, AllKeys}
use sketchlog.Sketch.Count.{max_int64}
use sketchlog.Sketch.Ddsketch.{Dd, fresh, bucket_value, is_inaccurate}
use sketchlog.Sketch.Ddsketch.Valid.{IsDd}
use sketchlog.Sketch.Ddsketch.Summary.{Stream, weight, Among, in_zero, IsSummary, bucket_value-same}
use sketchlog.Sketch.Ddsketch.Monotone.{All-Among, index, positive_counts, negative_counts}
use sketchlog.Sketch.Ddsketch.Weight.{AllKeys-counted, Among-weight}
use sketchlog.Sketch.Ddsketch.Quantile.{
  insert_item, sorted_items, ascending, descending, Walked, found, passed, walk, end_positive,
  walk_zero, end_negative, quantile,
}

insert_item-AllKeys :
    (P : ℤ → Type 0) (before : ℤ → ℤ → Bool) (k : ℤ) (n : ℕ) (items : Bins)
    → P k
    → AllKeys P items
    → AllKeys P (insert_item before k n items)
unfolding insert_item
insert_item-AllKeys P before k n [] p h = (p, tt)
insert_item-AllKeys P before k n ((j, m) ∷ items) p h = elim (Bool-cases (before j k)) [
  | inl first ↦ rw first (h.0, insert_item-AllKeys P before k n items p h.1)
  | inr other ↦ rw other (p, h)
]

sorted_items-AllKeys :
    (P : ℤ → Type 0) (before : ℤ → ℤ → Bool) (store : Bins)
    → AllKeys P store
    → AllKeys P (sorted_items before store)
unfolding sorted_items
sorted_items-AllKeys P before [] h = tt
sorted_items-AllKeys P before ((k, n) ∷ store) h =
    insert_item-AllKeys P before k n (sorted_items before store) h.0
      (sorted_items-AllKeys P before store h.1)

module _ (f : Float) (laws : FloatKeys f) where
  open f use {F, of_nat, lt, le, eq, mul, sub, neg, abs, is_nan, is_inf, millionth}

  -- What a walk from a positive rank ends in: a key of the store, or a positive rank.
  IsWalked : (ℤ → Type 0) → Walked F → Type 0
  IsWalked P (found k) = P k
  IsWalked P (passed rank) = le rank (of_nat 0) ≡ false

  walk-IsWalked :
      (P : ℤ → Type 0) (rank : F) (items : Bins)
      → le rank (of_nat 0) ≡ false
      → AllKeys P items
      → IsWalked P (walk f rank items)
  unfolding walk IsWalked
  walk-IsWalked P rank [] r h = r
  walk-IsWalked P rank ((k, n) ∷ items) r h =
      elim (Bool-cases (le (sub rank (of_nat n)) (of_nat 0))) [
        | inl ends ↦ rw ends (h.0)
        | inr goes ↦ rw goes (walk-IsWalked P (sub rank (of_nat n)) items goes h.1)
      ]

  -- The representative of the bucket that a value belongs to.
  pub representative : F → F → F
  representative accuracy x =
      if lt (of_nat 0) x
      then bucket_value f (fresh f accuracy) (index f accuracy x)
      else if lt x (of_nat 0)
      then neg (bucket_value f (fresh f accuracy) (index f accuracy (neg x)))
      else of_nat 0

  -- A value of the stream, exactly or by its bucket.
  abbrev pub IsSeen : F → Stream F → F → Type 0
  IsSeen accuracy xs y =
      (x : F) × Among x xs
      × ((y ≡ x) ⊎ (y ≡ representative accuracy x))
      × (eq x (of_nat 0) ≡ false → is_inaccurate f (fresh f accuracy) (abs x) ≡ false)

  module _ (accuracy : F) (s : Dd F) (xs : Stream F) (h : IsSummary f accuracy s xs) (v : IsDd s)
      (used : 0 < s.count) where
    seen : (x y : F) → Among x xs → (y ≡ x) ⊎ (y ≡ representative accuracy x) → IsSeen accuracy xs y
    seen x y a e = (
      x,
      a,
      e,
      All-Among f
          (λ z. eq z (of_nat 0) ≡ false → is_inaccurate f (fresh f accuracy) (abs z) ≡ false) xs x
          h.accurate a,
    )

    min-IsSeen : IsSeen accuracy xs s.min
    min-IsSeen = elim (h.lowest) [
      | inr a ↦ seen s.min s.min a (inl refl)
      | inl (empty, _) ↦ absurd (no_values empty)
    ]
      where
        no_values : xs ≡ [] → ⊥
        no_values e =
            let none_of : s.count ≡ 0 = h.counted ∙ rw e (unfold weight in refl) in
            omega (arith, used, none_of)

    max-IsSeen : IsSeen accuracy xs s.max
    max-IsSeen = elim (h.highest) [
      | inr a ↦ seen s.max s.max a (inl refl)
      | inl (empty, _) ↦ absurd (no_values empty)
    ]
      where
        no_values : xs ≡ [] → ⊥
        no_values e =
            let none_of : s.count ≡ 0 = h.counted ∙ rw e (unfold weight in refl) in
            omega (arith, used, none_of)

    -- The keys of the stores are those of values.
    positive-owned : AllKeys (λ k. IsSeen accuracy xs (bucket_value f s k)) s.positive
    unfolding representative
    positive-owned =
        AllKeys-counted (λ k. IsSeen accuracy xs (bucket_value f s k)) max_int64 s.positive
          v.positives.counts
          λ k c.
            let test : F → Bool = λ x. lt (of_nat 0) x && (index f accuracy x == k) in
            let (x, a, t) = Among-weight test xs (rw (positive_counts f accuracy s xs h k) at c) in
            let up : lt (of_nat 0) x ≡ true = ground (arith, t) in
            let e = (int_key.beq_iff (index f accuracy x) k).0 (ground (arith, t)) in
            seen x (bucket_value f s k) a
              (inr (rw (up, bucket_value-same f accuracy s xs h k, e) refl))

    negative-owned : AllKeys (λ k. IsSeen accuracy xs (neg (bucket_value f s k))) s.negative
    unfolding representative
    negative-owned =
        AllKeys-counted (λ k. IsSeen accuracy xs (neg (bucket_value f s k))) max_int64 s.negative
          v.negatives.counts
          λ k c.
            let test : F → Bool = λ x. lt x (of_nat 0) && (index f accuracy (neg x) == k) in
            let (x, a, t) = Among-weight test xs (rw (negative_counts f accuracy s xs h k) at c) in
            let down : lt x (of_nat 0) ≡ true = ground (arith, t) in
            let not_up = laws.order.lt_asymm x (of_nat 0) down in
            let e = (int_key.beq_iff (index f accuracy (neg x)) k).0 (ground (arith, t)) in
            seen x (neg (bucket_value f s k)) a
              (inr (rw (not_up, down, bucket_value-same f accuracy s xs h k, e) refl))

    zero-IsSeen : 0 < s.zero_count → IsSeen accuracy xs (of_nat 0)
    unfolding representative in_zero
    zero-IsSeen c =
        let (x, a, t) = Among-weight (in_zero f) xs (rw (h.zeros) at c) in
        let not_up : lt (of_nat 0) x ≡ false = ground (arith, t) in
        let not_down : lt x (of_nat 0) ≡ false = ground (arith, t) in
        seen x (of_nat 0) a (inr (rw (not_up, not_down) refl))

    end_positive-IsSeen :
        (w : Walked F)
        → IsWalked (λ k. IsSeen accuracy xs (bucket_value f s k)) w
        → IsSeen accuracy xs (end_positive f s w)
    unfolding IsWalked
    end_positive-IsSeen (found k) p = p
    end_positive-IsSeen (passed rank) p = max-IsSeen

    walk_zero-IsSeen :
        (rank : F) → le rank (of_nat 0) ≡ false → IsSeen accuracy xs (walk_zero f s rank)
    unfolding walk_zero
    walk_zero-IsSeen rank r = elim (Bool-cases (le (sub rank (of_nat s.zero_count)) (of_nat 0))) [
      | inr goes ↦
          let left = sub rank (of_nat s.zero_count) in
          rw goes (
            end_positive-IsSeen (walk f left (sorted_items ascending s.positive)) (
              walk-IsWalked _ left (sorted_items ascending s.positive) goes
                (sorted_items-AllKeys _ ascending s.positive positive-owned)))
      | inl ends ↦ elim (Bool-cases (nat_eq s.zero_count 0)) [
        | inr some_zeros ↦ rw ends (zero-IsSeen (ground (arith, some_zeros)))
        | inl none_of ↦
            let e : s.zero_count ≡ 0 = ground (arith, none_of) in
            cc (rw (e, laws.sub_zero rank) at ends, r)
      ]
    ]

    end_negative-IsSeen :
        (w : Walked F)
        → IsWalked (λ k. IsSeen accuracy xs (neg (bucket_value f s k))) w
        → IsSeen accuracy xs (end_negative f s w)
    unfolding IsWalked
    end_negative-IsSeen (found k) p = p
    end_negative-IsSeen (passed rank) p = walk_zero-IsSeen rank p

    -- A quantile of a sketch that has counted: for every number the call returns, and what it
    -- returns is a value that was given, or the representative of the bucket of one; a value that
    -- is not zero lies within the relative accuracy of its representative.
    pub quantile-IsSeen :
        (q : F)
        → is_nan q ≡ false
        → is_inf q ≡ false
        → (y : F) × (quantile f q s ≡ ok y) × IsSeen accuracy xs y
    unfolding quantile
    quantile-IsSeen q real bounded =
        let some_values : nat_eq s.count 0 ≡ false = ground (arith, used) in
        elim (Bool-cases (le q (of_nat 0))) [
          | inl low ↦ (s.min, rw (real, bounded, some_values, low) refl, min-IsSeen)
          | inr above ↦ elim (Bool-cases (le (of_nat 1) q)) [
            | inl high ↦ (s.max, rw (real, bounded, some_values, above, high) refl, max-IsSeen)
            | inr below ↦
                let rank = mul q (of_nat s.count) in
                let items = sorted_items descending s.negative in
                (
                  end_negative f s (walk f rank items),
                  rw (real, bounded, some_values, above, below) refl,
                  end_negative-IsSeen (walk f rank items) (
                      walk-IsWalked _ rank items (laws.mul_pos q s.count above real used)
                        (sorted_items-AllKeys _ descending s.negative negative-owned)),
                )
          ]
        ]
