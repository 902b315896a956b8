-- ===== src/Tests/Fixed.antt =====
-- Whole thousandths as a `Float` with infinities, for the runs: its logarithm and its product keep
-- their first argument, and its quotient only tells which of the two is smaller.
use sketchlog.Prelude.{◌*◌, ◌≡◌, refl, Bool, true, false, ◌||◌, arith, if◌then◌else◌}
use sketchlog.Prelude.Int.{ℤ, pos, negsuc, ltb_ℤ, ◌+ℤ◌, ◌-ℤ◌}
use sketchlog.Prelude.Key.{int_beq, int_beq_iff}
use sketchlog.Prelude.Float.{Float, FloatOrder, FloatKeys}
use sketchlog.Tests.Whole.{whole, whole_order}

abbrev quotient : ℤ → ℤ → ℤ
quotient a b = if ltb_ℤ a b then pos 1 else pos 2000

abbrev is_outside : ℤ → Bool
is_outside x = ltb_ℤ (pos 1000000) x || ltb_ℤ x (negsuc 999999)

abbrev pub fixed : Float
fixed = record whole {
  of_nat = λ n. pos (1000 * n);
  mul = λ x y. x;
  div = quotient;
  is_inf = is_outside;
  inf = pos 1000001;
  millionth = pos 1;
}

pub fixed_order : FloatOrder fixed
unfolding ltb_ℤ int_beq ◌-ℤ◌
fixed_order = record {
  lt_asymm = whole_order.lt_asymm;
  lt_trans = whole_order.lt_trans;
  le_not_lt = whole_order.le_not_lt;
  lt_of_ne = whole_order.lt_of_ne;
  eq_not_lt = whole_order.eq_not_lt;
  of_nat-not_nan = λ n. refl;
  abs_pos = whole_order.abs_pos;
  abs_neg = whole_order.abs_neg;
}

larger : (a : ℤ) → fixed.le fixed.millionth a ≡ true → ltb_ℤ (pos 1000 +ℤ a) (pos 1000 -ℤ a) ≡ false
unfolding ltb_ℤ ◌+ℤ◌ ◌-ℤ◌
larger a low = ground arith

pub fixed_keys : FloatKeys fixed
unfolding ltb_ℤ ◌+ℤ◌ ◌-ℤ◌ int_beq
fixed_keys = record {
  order = fixed_order;
  lt_inf = λ x h k. ground arith;
  inf_lt = λ x h k. ground arith;
  le_of_not_lt = λ x y h k n. ground arith;
  lt_le_trans = λ x y z h k. ground arith;
  le_lt_trans = λ x y z h k. ground arith;
  inf-not_nan = (refl, refl);
  eq_same = λ x y h p. (int_beq_iff x y).0 h;
  millionth_pos = λ x h. ground arith;
  neg_pos = λ x h. ground arith;
  neg_finite = λ x h k. (refl, ground arith);
  neg_le = λ x y h. ground arith;
  log_mono = λ x y p h. h;
  mul_mono = λ m x y p b h. h;
  ceil_mono = λ x y h. ground arith;
  tiny_pos = refl;
  tiny_le = λ x h. ground arith;
  le_largest = λ x h k. ground arith;
  mul_pos = λ q n h k p. h;
  sub_zero = λ x. ground arith;
  rate = λ a low high. rw (larger a low) (refl, refl, refl);
}
