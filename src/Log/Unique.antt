-- ===== src/Log/Unique.antt =====
-- `unique_count` of a StreamLog.
use sketchlog.Prelude.{ℕ}
use sketchlog.Prelude.Int.{pos_part}
use sketchlog.Prelude.Float.{Float}
use sketchlog.Sketch.Hll.Estimate.{estimate}
use sketchlog.Log.{StreamLog}

module _ (f : Float) where
  open f use {F, add, decimal, trunc}

  -- `max(0, int(est + 0.5))`
  unfoldable pub unique_count : StreamLog F → ℕ
  unique_count s = pos_part (trunc (add (estimate f s.uniques) (decimal 5 1)))
