-- ===== src/Log/Answers.antt =====
-- What the percentiles of a log that the methods produced say of its latencies.
use mathlib.Core.Path.{subst}
use sketchlog.Prelude.{refl}
use sketchlog.Prelude.{◌≤◌, ◌<◌, ◌≡◌, false}
use sketchlog.Prelude.Exec.{ok}
use sketchlog.Prelude.Float.{Float, FloatKeys}
use sketchlog.Sketch.Ddsketch.Summary.{weight}
use sketchlog.Sketch.Ddsketch.Greater.{count_greater_than-counts}
use sketchlog.Sketch.Ddsketch.Rank.{IsQuantile}
use sketchlog.Sketch.Ddsketch.Ranked.{quantile-IsQuantile}
use sketchlog.Sketch.Ddsketch.Seen.{IsSeen, quantile-IsSeen}
use sketchlog.Log.{StreamLog}
use sketchlog.Log.Percentile.{percentile, count_greater_than}
use sketchlog.Log.Reach.{Reachable, Reachable-IsStreamLog}
use sketchlog.Log.Summarised.{Reachable-HasSummary, Reachable-Summarises, given}

module _ (f : Float) (laws : FloatKeys f) (s : StreamLog f.F) (r : Reachable f s) where
  open f use {F, lt, is_nan, is_inf}

  -- A percentile of a log that the methods produced, and that has counted a latency, for any
  -- finite number `q`: the call returns. Of the latencies that the calls gave since the last reset
  -- (those that `add_latency` counted, the finite ones of the batches that returned, and those of
  -- the logs whose merges returned) it returns the least if `q` is at most 0 and the greatest if it
  -- is at least 1. Between them, with the latencies counted by their buckets in the order of their
  -- values (all buckets that hold one, and zero), and the counts taken one by one from the rank,
  -- `q` times the number of the latencies, it returns the representative of the first bucket at
  -- which what is left of the rank is not positive, or the greatest latency if it never is. The
  -- result is one of the latencies or the representative of the bucket of one that, if it is not
  -- zero, lies within the relative accuracy of it.
  pub percentile-IsQuantile :
      (q : F)
      → 0 < s.latency.count
      → is_nan q ≡ false
      → is_inf q ≡ false
      → (y : F) × (percentile f q s ≡ ok y)
        × IsQuantile f s.latency.alpha (given f laws s r) q y
        × IsSeen f laws s.latency.alpha (given f laws s r) y
  unfolding percentile
  percentile-IsQuantile q used real bounded =
      let (h, same) = Reachable-Summarises f laws s r in
      let v = (Reachable-IsStreamLog f laws.order s r).latency in
      let k = rw (same, ← h.summary.alpha) at h.summary in
      let low = rw (← h.summary.alpha) at h.low in
      let high = rw (← h.summary.alpha) at h.high in
      let (y, e, is) =
        quantile-IsQuantile f laws s.latency.alpha low high s.latency (given f laws s r) k v used q
          real bounded in
      let (x, e', seen) =
        quantile-IsSeen f laws s.latency.alpha s.latency (given f laws s r) k v used q real
          bounded in
      let agree : x ≡ y = cc (e, e') in
      (y, rw e refl, is, subst (IsSeen f laws s.latency.alpha (given f laws s r)) agree seen)

  -- In a log that the methods produced no latency above a threshold is missed:
  -- `count_greater_than` is at least the number of the values of the stream that the log
  -- summarises that are greater, for any threshold that is not NaN.
  pub count_greater_than-counted :
      (t : F)
      → is_nan t ≡ false
      → weight (λ x. lt t x) (Reachable-HasSummary f laws s r).values ≤ count_greater_than f t s
  unfolding count_greater_than
  count_greater_than-counted t real =
      let h = Reachable-HasSummary f laws s r in
      let v = Reachable-IsStreamLog f laws.order s r in
      count_greater_than-counts f laws h.accuracy h.low h.high s.latency h.values h.summary
        v.latency t real
