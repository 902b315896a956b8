-- ===== src/Prelude/Float.antt =====
-- Python's `float` is not code of the repository: its values and the operations that the program
-- uses are a parameter, and what the proofs need of IEEE 754 is a record of laws beside it. The
-- laws hold of NaN, of the infinities and of both zeros too, unless a premise excludes them.
use sketchlog.Prelude.{ℕ, suc, ◌<◌, ◌≡◌, Bool, true, false, Option, List, if◌then◌else◌}
use sketchlog.Prelude.Int.{ℤ, pos, negsuc, ◌≤ℤ◌}

pub record Float : Type 1 where
  pub F : Type 0
  pub of_nat : ℕ → F
  -- `<`, `<=` and `==`
  pub lt : F → F → Bool
  pub le : F → F → Bool
  pub eq : F → F → Bool
  pub add : F → F → F
  pub sub : F → F → F
  pub mul : F → F → F
  pub div : F → F → F
  pub neg : F → F
  pub abs : F → F
  pub is_nan : F → Bool
  pub is_inf : F → Bool
  pub inf : F
  -- `math.log` and `math.ceil`
  pub log : F → F
  pub ceil : F → ℤ
  -- `x ** n` for an integer `n`; `none` is the OverflowError
  pub pow : F → ℤ → Option F
  -- `float.fromhex('0x0.0000000000001p-1022')`, `sys.float_info.max` and `1e-6`
  pub tiny : F
  pub largest : F
  pub millionth : F
  -- A literal by its digits and the number of them after the point: 0.673 is `decimal 673 3`.
  pub decimal : ℕ → ℕ → F
  -- `2.0 ** -n`, which cannot overflow, `sum(xs)` of a list and `int(x)` of a finite value
  pub exp2_neg : ℕ → F
  pub sum_of : List F → F
  pub trunc : F → ℤ

-- `min(a, b)` and `max(a, b)` of Python return their first argument unless the second one is
-- strictly smaller or larger.
module _ (f : Float) where
  open f use {F, lt, of_nat, neg}

  -- `float(n)`
  abbrev pub of_int : ℤ → F
  of_int (pos n) = of_nat n
  of_int (negsuc n) = neg (of_nat (suc n))

  abbrev pub fmin : F → F → F
  fmin a b = if lt b a then b else a

  abbrev pub fmax : F → F → F
  fmax a b = if lt a b then b else a

-- What IEEE 754 says of the comparisons.
pub record FloatOrder (f : Float) : Type 0 where
  pub lt_asymm : (x y : f.F) → f.lt x y ≡ true → f.lt y x ≡ false
  pub lt_trans : (x y z : f.F) → f.lt x y ≡ true → f.lt y z ≡ true → f.lt x z ≡ true
  pub le_not_lt : (x y : f.F) → f.le x y ≡ true → f.lt y x ≡ false
  -- Of two values that are not NaN, the first is smaller, equal or larger.
  pub lt_of_ne :
      (x y : f.F)
      → f.is_nan x ≡ false
      → f.is_nan y ≡ false
      → f.eq x y ≡ false
      → f.lt y x ≡ false
      → f.lt x y ≡ true
  pub eq_not_lt : (x y : f.F) → f.eq x y ≡ true → (f.lt x y ≡ false) × (f.lt y x ≡ false)
  pub of_nat-not_nan : (n : ℕ) → f.is_nan (f.of_nat n) ≡ false
  pub abs_pos : (x : f.F) → f.lt (f.of_nat 0) x ≡ true → f.abs x ≡ x
  pub abs_neg : (x : f.F) → f.lt x (f.of_nat 0) ≡ true → f.abs x ≡ f.neg x

-- What the token bucket needs of the arithmetic: results do not leave the range of their operands.
pub record FloatArith (f : Float) : Type 0 where
  pub order : FloatOrder f
  pub le_of_lt : (x y : f.F) → f.lt x y ≡ true → f.le x y ≡ true
  -- Taking a number of tokens away gives no more than there was,
  pub lt_sub : (b x : f.F) (n : ℕ) → f.lt b (f.sub x (f.of_nat n)) ≡ true → f.lt b x ≡ true
  -- and nothing negative where there were enough.
  pub sub_nonneg :
      (x : f.F) (n : ℕ)
      → f.le (f.of_nat n) x ≡ true
      → f.lt (f.sub x (f.of_nat n)) (f.of_nat 0) ≡ false
  pub add_nonneg :
      (x y : f.F)
      → f.lt x (f.of_nat 0) ≡ false
      → f.lt y (f.of_nat 0) ≡ false
      → f.lt (f.add x y) (f.of_nat 0) ≡ false
  pub mul_nonneg :
      (x y : f.F)
      → f.lt x (f.of_nat 0) ≡ false
      → f.lt y (f.of_nat 0) ≡ false
      → f.lt (f.mul x y) (f.of_nat 0) ≡ false
  pub of_nat_nonneg : (n : ℕ) → f.lt (f.of_nat n) (f.of_nat 0) ≡ false

-- What the bucket of a value needs: the logarithm, the product with a positive number and the
-- rounding are monotone, and the infinities bound what is finite.
pub record FloatKeys (f : Float) : Type 0 where
  pub order : FloatOrder f
  pub lt_inf : (x : f.F) → f.is_nan x ≡ false → f.is_inf x ≡ false → f.lt x f.inf ≡ true
  pub inf_lt : (x : f.F) → f.is_nan x ≡ false → f.is_inf x ≡ false → f.lt (f.neg f.inf) x ≡ true
  pub le_of_not_lt :
      (x y : f.F) → f.is_nan x ≡ false → f.is_nan y ≡ false → f.lt y x ≡ false → f.le x y ≡ true
  pub lt_le_trans : (x y z : f.F) → f.lt x y ≡ true → f.le y z ≡ true → f.lt x z ≡ true
  pub le_lt_trans : (x y z : f.F) → f.le x y ≡ true → f.lt y z ≡ true → f.lt x z ≡ true
  pub inf-not_nan : (f.is_nan f.inf ≡ false) × (f.is_nan (f.neg f.inf) ≡ false)
  -- Two equal values that are not zero are the same.
  pub eq_same : (x y : f.F) → f.eq x y ≡ true → f.lt (f.of_nat 0) x ≡ true → x ≡ y
  pub millionth_pos : (x : f.F) → f.le f.millionth x ≡ true → f.lt (f.of_nat 0) x ≡ true
  pub neg_pos : (x : f.F) → f.lt x (f.of_nat 0) ≡ true → f.lt (f.of_nat 0) (f.neg x) ≡ true
  pub neg_finite :
      (x : f.F)
      → f.is_nan x ≡ false
      → f.is_inf x ≡ false
      → (f.is_nan (f.neg x) ≡ false) × (f.is_inf (f.neg x) ≡ false)
  pub neg_le : (x y : f.F) → f.le x y ≡ true → f.le (f.neg y) (f.neg x) ≡ true
  pub log_mono :
      (x y : f.F) → f.lt (f.of_nat 0) x ≡ true → f.le x y ≡ true → f.le (f.log x) (f.log y) ≡ true
  pub mul_mono :
      (m x y : f.F)
      → f.lt (f.of_nat 0) m ≡ true
      → f.is_inf m ≡ false
      → f.le x y ≡ true
      → f.le (f.mul x m) (f.mul y m) ≡ true
  pub ceil_mono : (x y : f.F) → f.le x y ≡ true → f.ceil x ≤ℤ f.ceil y
  -- The finite values lie between the smallest subnormal number and the largest number.
  pub tiny_pos : f.lt (f.of_nat 0) f.tiny ≡ true
  pub tiny_le : (x : f.F) → f.lt (f.of_nat 0) x ≡ true → f.le f.tiny x ≡ true
  pub le_largest : (x : f.F) → f.is_nan x ≡ false → f.is_inf x ≡ false → f.le x f.largest ≡ true
  -- An accuracy that the sketch accepts has a base above 1, whose logarithm is a positive number,
  -- and so is the quotient of 1 by it.
  pub rate :
      (a : f.F)
      → f.le f.millionth a ≡ true
      → f.lt a (f.of_nat 1) ≡ true
      → let base = f.log (f.div (f.add (f.of_nat 1) a) (f.sub (f.of_nat 1) a)) in
        (f.eq base (f.of_nat 0) ≡ false)
        × (f.lt (f.of_nat 0) (f.div (f.of_nat 1) base) ≡ true)
        × (f.is_inf (f.div (f.of_nat 1) base) ≡ false)
  -- A positive number, and 0 taken away.
  pub mul_pos :
      (q : f.F) (n : ℕ)
      → f.le q (f.of_nat 0) ≡ false
      → f.is_nan q ≡ false
      → 0 < n
      → f.le (f.mul q (f.of_nat n)) (f.of_nat 0) ≡ false
  pub sub_zero : (x : f.F) → f.sub x (f.of_nat 0) ≡ x
