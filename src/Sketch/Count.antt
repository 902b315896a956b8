-- ===== src/Sketch/Count.antt =====
-- The count arguments of the sketches, and the bounds of their counters.
use sketchlog.Prelude.{ℕ, zero, suc, ◌-◌, ◌^◌, Bool, true, false}
use sketchlog.Prelude.Int.{ℤ, pos, negsuc}

abbrev pub max_int64 : ℕ
max_int64 = 2 ^ 63 - 1

abbrev pub max_uint64 : ℕ
max_uint64 = 2 ^ 64 - 1

-- A count argument: an `int`, or a value of another type (a `bool` too).
pub data Count : Type 0 where
  int : ℤ → Count
  other : Count

abbrev pub is_positive : ℤ → Bool
is_positive (pos zero) = false
is_positive (pos (suc n)) = true
is_positive (negsuc n) = false

abbrev pub amount : ℤ → ℕ
amount (pos n) = n
amount (negsuc n) = 0
