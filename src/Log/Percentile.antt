-- ===== src/Log/Percentile.antt =====
-- facade.py: the percentiles of a StreamLog and its count of latencies above a threshold.
use sketchlog.Prelude.{ℕ}
use sketchlog.Prelude.Exec.{Result, lift}
use sketchlog.Prelude.Float.{Float}
use sketchlog.Sketch.Ddsketch
use sketchlog.Sketch.Ddsketch.Quantile.{quantile}
use sketchlog.Log.{StreamLog, LogError, of_latency}

module _ (f : Float) where
  open f use {F, decimal}

  unfoldable pub percentile : F → StreamLog F → Result LogError F
  percentile q s = lift of_latency (quantile f q s.latency)

  abbrev pub p50 : StreamLog F → Result LogError F
  p50 = percentile (decimal 50 2)

  abbrev pub p95 : StreamLog F → Result LogError F
  p95 = percentile (decimal 95 2)

  abbrev pub p99 : StreamLog F → Result LogError F
  p99 = percentile (decimal 99 2)

  abbrev pub p999 : StreamLog F → Result LogError F
  p999 = percentile (decimal 999 3)

  unfoldable pub count_greater_than : F → StreamLog F → ℕ
  count_greater_than threshold s = Ddsketch.count_greater_than f s.latency threshold
