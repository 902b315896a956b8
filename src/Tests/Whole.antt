-- ===== src/Tests/Whole.antt =====
-- The integers as a `Float` that satisfies the laws, for the runs: its division is the one of the
-- numbers, its logarithm the identity, and it has neither NaN nor infinities.
use sketchlog.Prelude.{suc, ◌/◌, ◌≡◌, refl, false, not, some, arith, List, [], ◌∷◌}
use sketchlog.Prelude.Int.{ℤ, pos, negsuc, ltb_ℤ, ◌+ℤ◌, ◌-ℤ◌, ◌*ℤ◌}
use sketchlog.Prelude.Key.{int_beq}
use sketchlog.Prelude.Float.{Float, FloatOrder, FloatArith}

abbrev divide : ℤ → ℤ → ℤ
divide (pos a) (pos b) = pos (a / b)
divide a b = a

abbrev magnitude : ℤ → ℤ
magnitude (pos n) = pos n
magnitude (negsuc n) = pos (suc n)

abbrev add_up : List ℤ → ℤ
add_up [] = pos 0
add_up (x ∷ xs) = x +ℤ add_up xs

abbrev pub whole : Float
whole = record {
  F = ℤ;
  of_nat = pos;
  lt = ltb_ℤ;
  le = λ x y. not (ltb_ℤ y x);
  eq = int_beq;
  add = ◌+ℤ◌;
  sub = ◌-ℤ◌;
  mul = ◌*ℤ◌;
  div = divide;
  neg = λ x. pos 0 -ℤ x;
  abs = magnitude;
  is_nan = λ x. false;
  is_inf = λ x. false;
  inf = pos 1000000;
  log = λ x. x;
  ceil = λ x. x;
  pow = λ x n. some n;
  tiny = pos 1;
  largest = pos 1000000;
  millionth = pos 0;
  decimal = λ n k. pos n;
  exp2_neg = λ n. pos 0;
  sum_of = add_up;
  trunc = λ x. x;
}

pub whole_order : FloatOrder whole
unfolding ltb_ℤ int_beq ◌-ℤ◌
whole_order = record {
  lt_asymm = λ x y h. ground arith;
  lt_trans = λ x y z h k. ground arith;
  le_not_lt = λ x y h. ground arith;
  lt_of_ne = λ x y h k ne up. ground arith;
  eq_not_lt = λ x y h. (ground arith, ground arith);
  of_nat-not_nan = λ n. refl;
  abs_pos = λ x h. ground arith;
  abs_neg = λ x h. ground arith;
}

nonneg_mul :
    (x y : ℤ) → ltb_ℤ x (pos 0) ≡ false → ltb_ℤ y (pos 0) ≡ false → ltb_ℤ (x *ℤ y) (pos 0) ≡ false
unfolding ltb_ℤ ◌*ℤ◌
nonneg_mul (pos a) (pos b) h k = ground arith
nonneg_mul (pos a) (negsuc b) h k = absurd (ground arith)
nonneg_mul (negsuc a) y h k = absurd (ground arith)

pub whole_arith : FloatArith whole
unfolding ltb_ℤ ◌+ℤ◌ ◌-ℤ◌
whole_arith = record {
  order = whole_order;
  le_of_lt = λ x y h. ground arith;
  lt_sub = λ b x n h. ground arith;
  sub_nonneg = λ x n h. ground arith;
  add_nonneg = λ x y h k. ground arith;
  mul_nonneg = nonneg_mul;
  of_nat_nonneg = λ n. ground arith;
}
