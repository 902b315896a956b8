-- ===== src/Sketch/Ddsketch/Outcome.antt =====
-- The checks of `add` come before its writes: on every branch it leaves the sketch as it was, or
-- has passed them all and writes.
use sketchlog.Prelude.{
  ℕ, zero, suc, ◌+◌, ◌-◌, ◌≤◌, ◌<◌, ◌≡◌, refl, ◌⊎◌, inl, inr, true, false, not, ◌||◌, arith, ltb,
  Bool-cases,
}
use sketchlog.Prelude.Int.{ℤ, pos, negsuc}
use sketchlog.Prelude.Key.{int_key}
use sketchlog.Prelude.Dict
use sketchlog.Prelude.Dict.{IsDict}
use sketchlog.Prelude.Exec.{Result, ok, err, Outcome, Outcome-raise_if}
use sketchlog.Prelude.Float.{Float}
use sketchlog.Sketch.Count.{Count, int, other, max_int64, max_uint64, is_positive, amount}
use sketchlog.Sketch.Bins.{Bins}
use sketchlog.Sketch.Ddsketch.{
  finish, check_bin, check_fit, check_accuracy, check_zeros, check_value, check_total, Dd, DdError,
  count_type, count_capacity, count_overflow, too_small, bins_full, bin_overflow, zero_overflow,
  key, store_can_fit, store_of, is_inaccurate, commit, add,
}

-- What the checks of `add` ask of the store that receives the value.
pub record HasRoom (store : Bins) (idx : ℤ) (n : ℕ) : Type 0 where
  pub fit : store_can_fit store idx ≡ true
  pub room : Dict.get_or idx 0 store + n ≤ max_int64

positive-amount : (n : ℤ) → is_positive n ≡ true → 0 < amount n
positive-amount (pos (suc n)) h = omega arith
positive-amount (pos zero) h = cc
positive-amount (negsuc n) h = cc

pos-amount : (n : ℤ) → is_positive n ≡ true → int n ≡ int (pos (amount n))
pos-amount (pos n) h = refl
pos-amount (negsuc n) h = cc

module _ (f : Float) where
  open f use {F, of_nat, lt, eq, neg, abs, is_nan, is_inf}

  -- What the checks of `add` establish before it writes.
  pub record Accepts (value : F) (n : ℕ) (s : Dd F) : Type 0 where
    pub finite : (is_nan value ≡ false) × (is_inf value ≡ false)
    pub positive : 0 < n
    pub small : n ≤ max_int64
    pub fits : s.count + n ≤ max_uint64
    pub accurate : eq value (of_nat 0) ≡ false → is_inaccurate f s (abs value) ≡ false
    pub bin :
        ((eq value (of_nat 0) ≡ true) × (s.zero_count + n ≤ max_int64))
        ⊎ ((eq value (of_nat 0) ≡ false) × HasRoom (store_of f s value) (key f s (abs value)) n)

  abbrev pub Commits : F → Count → Dd F → Result DdError (Unit {0}) × Dd F → Type 0
  Commits value count s x =
      (n : ℕ) × (count ≡ int (pos n)) × Accepts value n s × (x ≡ (ok tt, commit f value n s))

  -- What is known after the checks of the count.
  record Counts (value : F) (n : ℕ) (s : Dd F) : Type 0 where
    finite : (is_nan value ≡ false) × (is_inf value ≡ false)
    positive : 0 < n
    small : n ≤ max_int64

  module _ (value : F) (count : Count) (n : ℕ) (is : count ≡ int (pos n)) (s : Dd F)
      (c : Counts value n s) (fits : s.count + n ≤ max_uint64) where
    check_zeros-Outcome :
        eq value (of_nat 0) ≡ true → Outcome (Commits value count s) s (check_zeros f value n s)
    unfolding check_zeros
    check_zeros-Outcome is_zero =
        Outcome-raise_if (Commits value count s) (ltb (max_int64 - n) s.zero_count) zero_overflow
          (finish f value n) s
          λ room.
            let room' : s.zero_count + n ≤ max_int64 = ground (arith, c.small) in
            inr (
              n,
              is,
              record {
                finite = c.finite;
                positive = c.positive;
                small = c.small;
                fits = fits;
                accurate = λ nonzero. cc (is_zero, nonzero);
                bin = inl (is_zero, room');
              },
              refl,
            )

    check_bin-Outcome :
        eq value (of_nat 0) ≡ false
        → is_inaccurate f s (abs value) ≡ false
        → store_can_fit (store_of f s value) (key f s (abs value)) ≡ true
        → Outcome (Commits value count s) s (check_bin f value n s)
    unfolding check_bin
    check_bin-Outcome nonzero accurate fit =
        Outcome-raise_if (Commits value count s)
          (ltb (max_int64 - n) (Dict.get_or (key f s (abs value)) 0 (store_of f s value)))
          bin_overflow (finish f value n) s
          λ room.
            let room' : Dict.get_or (key f s (abs value)) 0 (store_of f s value) + n ≤ max_int64 =
              ground (arith, c.small) in
            inr (
              n,
              is,
              record {
                finite = c.finite;
                positive = c.positive;
                small = c.small;
                fits = fits;
                accurate = λ _. accurate;
                bin = inr (nonzero, record { fit = fit; room = room' });
              },
              refl,
            )

    check_accuracy-Outcome :
        eq value (of_nat 0) ≡ false → Outcome (Commits value count s) s (check_accuracy f value n s)
    unfolding check_accuracy check_fit
    check_accuracy-Outcome nonzero =
        Outcome-raise_if (Commits value count s) (is_inaccurate f s (abs value)) too_small
          (check_fit f value n) s
          λ accurate.
            Outcome-raise_if (Commits value count s)
              (not (store_can_fit (store_of f s value) (key f s (abs value)))) bins_full
              (check_bin f value n) s λ fit. check_bin-Outcome nonzero accurate (ground arith)

    check_value-Outcome : Outcome (Commits value count s) s (check_value f value n s)
    unfolding check_value
    check_value-Outcome = elim (Bool-cases (eq value (of_nat 0))) [
      | inl is_zero ↦ rw is_zero (check_zeros-Outcome is_zero)
      | inr nonzero ↦ rw nonzero (check_accuracy-Outcome nonzero)
    ]

  check_total-Outcome :
      (value : F) (count : Count) (n : ℕ) (s : Dd F)
      → count ≡ int (pos n)
      → Counts value n s
      → Outcome (Commits value count s) s (check_total f value n s)
  unfolding check_total
  check_total-Outcome value count n s is c =
      Outcome-raise_if (Commits value count s) (ltb (max_uint64 - n) s.count) count_overflow
        (check_value f value n) s
        λ room. check_value-Outcome value count n is s c (ground (arith, c.small))

  -- `add` leaves the sketch as it was, or its count passes every check and it writes: the value is
  -- finite and close to the representative of its bucket, the total and the bucket have room, and
  -- the store can hold the bucket.
  pub add-Outcome :
      (value : F) (count : Count) (s : Dd F)
      → Outcome (Commits value count s) s (add f value count s)
  unfolding add
  add-Outcome value other s = elim (Bool-cases (is_nan value || is_inf value)) [
    | inl special ↦ rw special (inl (ok tt, refl))
    | inr finite ↦ rw finite (inl (err count_type, refl))
  ]
  add-Outcome value (int n) s = elim (Bool-cases (is_nan value || is_inf value)) [
    | inl special ↦ rw special (inl (ok tt, refl))
    | inr finite ↦ rw finite (elim (Bool-cases (is_positive n)) [
      | inr nonpos ↦ rw nonpos (inl (ok tt, refl))
      | inl positive ↦ rw positive (
          Outcome-raise_if (Commits value (int n) s) (ltb max_int64 (amount n)) count_capacity
            (check_total f value (amount n)) s
            λ small.
              check_total-Outcome value (int n) (amount n) s (pos-amount n positive) (record {
                finite = (ground arith, ground arith);
                positive = positive-amount n positive;
                small = ground arith;
              }))
    ])
  ]
