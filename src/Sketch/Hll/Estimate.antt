-- ===== src/Sketch/Hll/Estimate.antt =====
-- The estimate of a HyperLogLog sketch, over the floating-point operations that it uses.
use sketchlog.Prelude.{ℕ, suc, ◌^◌, List, [], ◌∷◌, map, if◌then◌else◌, ltb, ◌==◌}
use sketchlog.Prelude.Float.{Float}
use sketchlog.Sketch.Hll.{Hll}

-- `registers.count(0)`
unfoldable pub count_zeros : List ℕ → ℕ
count_zeros [] = 0
count_zeros (r ∷ registers) = let rest = count_zeros registers in if r == 0 then suc rest else rest

module _ (f : Float) where
  open f use {F, of_nat, add, mul, div, le, log, decimal, exp2_neg, sum_of}

  -- `_alpha`, by the number of registers.
  unfoldable pub alpha : ℕ → F
  alpha m =
      if m == 16
      then decimal 673 3
      else if m == 32
      then decimal 697 3
      else if m == 64
      then decimal 709 3
      else div (decimal 7213 4) (add (decimal 10 1) (div (decimal 1079 3) (of_nat m)))

  unfoldable pub estimate : Hll → F
  estimate s =
      let m = of_nat (2 ^ s.p) in
      let raw = div (mul (mul (alpha (2 ^ s.p)) m) m) (sum_of (map exp2_neg s.registers)) in
      let zeros = count_zeros s.registers in
      if le raw (mul (decimal 25 1) m)
      then if ltb 0 zeros then mul m (log (div m (of_nat zeros))) else raw
      else raw
