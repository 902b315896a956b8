-- ===== src/Log/Valid.antt =====
-- The invariant of a StreamLog: its three sketches are valid, and its total is the number of
-- latencies and events that they count. Every method keeps it, raising or not.
use sketchlog.Prelude.{◌+◌, ◌≤◌, ◌≡◌, refl, not, ◌||◌, arith, ltb, ◌==◌, inl, inr, ◌⊎◌}
use sketchlog.Prelude.Exec.{Result, ok, err, Ensures, Ensures-refuse_if, Ensures-bind}
use sketchlog.Prelude.Float.{Float}
use sketchlog.Sketch.Count.{max_int64, max_uint64}
use sketchlog.Sketch.Bins.{total}
use sketchlog.Sketch.Cms.Valid.{IsCms}
use sketchlog.Sketch.Hll
use sketchlog.Sketch.Hll.{Hll, Item, HllError}
use sketchlog.Sketch.Hll.Valid.{IsHll, merge-IsHll}
use sketchlog.Sketch.Ddsketch.Valid.{IsDd}
use sketchlog.Log.{
  StreamLog, LogError, Parts, merge_store, merge_table, plan_parts, plan, merged, merge,
  commit_merge, alpha_mismatch, precision_mismatch, dimension_mismatch, events_full,
  latency_overflow, zero_overflow, total_overflow,
}
use sketchlog.Log.Merge.{IsMerged, merge_store-IsMerged, IsTable, merge_table-IsTable}

pub record IsStreamLog {F : Type 0} (s : StreamLog F) : Type 0 where
  pub latency : IsDd s.latency
  pub events : IsCms s.events
  pub uniques : IsHll s.uniques
  pub counted : s.total ≡ s.latency.count + s.events.total
  pub fits : s.total ≤ max_uint64

-- What the first checks of `merge` establish.
pub record Compatible {F : Type 0} (s t : StreamLog F) : Type 0 where
  pub precision : s.uniques.p ≡ t.uniques.p
  pub width : s.events.width ≡ t.events.width
  pub depth : s.events.depth ≡ t.events.depth
  pub total : s.total + t.total ≤ max_uint64
  pub count : s.latency.count + t.latency.count ≤ max_uint64
  pub zeros : s.latency.zero_count + t.latency.zero_count ≤ max_int64
  pub events : s.events.total + t.events.total ≤ max_int64

module _ (f : Float) where
  open f use {F, eq}

  -- What the loops of `merge` establish after its checks holds of its plan.
  pub plan-Ensures :
      (s t : StreamLog F) (P : Parts → Type 0)
      → (Compatible s t → Ensures P (plan_parts f s t))
      → Ensures P (plan f s t)
  unfolding plan
  plan-Ensures s t P h =
      Ensures-refuse_if P (not (eq s.latency.alpha t.latency.alpha)) alpha_mismatch _ λ _.
        Ensures-refuse_if P (not (s.uniques.p == t.uniques.p)) precision_mismatch _ λ precision.
          Ensures-refuse_if P
            (not (s.events.width == t.events.width) || not (s.events.depth == t.events.depth))
            dimension_mismatch _
            λ dimensions.
              Ensures-refuse_if P (ltb max_uint64 (s.total + t.total)) events_full _ λ all.
                Ensures-refuse_if P (ltb max_uint64 (s.latency.count + t.latency.count))
                  latency_overflow _
                  λ count.
                    Ensures-refuse_if P
                      (ltb max_int64 (s.latency.zero_count + t.latency.zero_count)) zero_overflow _
                      λ zeros.
                        Ensures-refuse_if P (ltb max_int64 (s.events.total + t.events.total))
                          total_overflow _
                          λ events. h (record {
                            precision = ground arith;
                            width = ground arith;
                            depth = ground arith;
                            total = ground arith;
                            count = ground arith;
                            zeros = ground arith;
                            events = ground arith;
                          })

  module _ (s t : StreamLog F) (v : IsStreamLog s) (w : IsStreamLog t) where
    -- What the loops of `merge` establish.
    record Computed (parts : Parts) : Type 0 where
      positive : IsMerged (total s.latency.positive) (total t.latency.positive) parts.positive
      negative : IsMerged (total s.latency.negative) (total t.latency.negative) parts.negative
      table : IsTable s.events.width s.events.depth (s.events.total + t.events.total) parts.table

    merged-IsStreamLog :
        (parts : Parts) → Compatible s t → Computed parts → IsStreamLog (merged f s t parts)
    unfolding merged
    merged-IsStreamLog parts c h = record {
      latency = record {
        positives = h.positive.valid;
        negatives = h.negative.valid;
        zeros = c.zeros;
        counted =
            omega (arith, v.latency.counted, w.latency.counted, h.positive.sums, h.negative.sums);
        fits = c.count;
      };
      events = record {
        wide = v.events.wide;
        deep = v.events.deep;
        seeded = v.events.seeded;
        tall = h.table.0;
        rows = h.table.1;
        fits = c.events;
      };
      uniques = unfold Hll.merge in merge-IsHll s.uniques t.uniques c.precision v.uniques w.uniques;
      counted = omega (arith, v.counted, w.counted);
      fits = c.total;
    }

    plan_parts-Computed : Compatible s t → Ensures Computed (plan_parts f s t)
    unfolding plan_parts
    plan_parts-Computed c =
        Ensures-bind (IsMerged (total s.latency.positive) (total t.latency.positive)) Computed
          (merge_store s.latency.positive t.latency.positive) _
          (merge_store-IsMerged s.latency.positive t.latency.positive v.latency.positives
            w.latency.positives)
          λ positive p.
            Ensures-bind (IsMerged (total s.latency.negative) (total t.latency.negative)) Computed
              (merge_store s.latency.negative t.latency.negative) _
              (merge_store-IsMerged s.latency.negative t.latency.negative v.latency.negatives
                w.latency.negatives)
              λ negative n.
                Ensures-bind
                  (IsTable s.events.width s.events.depth (s.events.total + t.events.total)) Computed
                  (merge_table s.events.table t.events.table) _
                  (merge_table-IsTable s.events.width s.events.depth s.events.total t.events.total
                    s.events.table t.events.table (v.events.tall, v.events.rows)
                    (omega (arith, w.events.tall, c.depth), rw (c.width) w.events.rows))
                  λ table r. record { positive = p; negative = n; table = r }

    plan_parts-IsStreamLog :
        Compatible s t → Ensures (λ parts. IsStreamLog (merged f s t parts)) (plan_parts f s t)
    plan_parts-IsStreamLog c = go (plan_parts f s t) (plan_parts-Computed c)
      where
        go :
            (r : Result LogError Parts)
            → Ensures Computed r
            → Ensures (λ parts. IsStreamLog (merged f s t parts)) r
        go (err e) h = tt
        go (ok parts) h = merged-IsStreamLog parts c h

  -- `merge` of two valid logs leaves a valid log, whose total is the sum of the two, or raises and
  -- leaves the log as it was.
  pub merge-IsStreamLog :
      (s t : StreamLog F)
      → IsStreamLog s
      → IsStreamLog t
      → IsStreamLog (merge f t s).1
        × (((e : LogError) × (merge f t s ≡ (err e, s)))
            ⊎ (((merge f t s).0 ≡ ok tt) × ((merge f t s).1.total ≡ s.total + t.total)))
  unfolding merge
  merge-IsStreamLog s t v w = go (plan f s t) (
      plan-Ensures s t (λ parts. IsStreamLog (merged f s t parts)) (plan_parts-IsStreamLog s t v w))
    where
      go :
          (r : Result LogError Parts)
          → Ensures (λ parts. IsStreamLog (merged f s t parts)) r
          → IsStreamLog (commit_merge f s t r).1
            × (((e : LogError) × (commit_merge f s t r ≡ (err e, s)))
                ⊎ (((commit_merge f s t r).0 ≡ ok tt)
                    × ((commit_merge f s t r).1.total ≡ s.total + t.total)))
      go (err e) h = (v, inl (e, refl))
      go (ok parts) h = (h, inr (refl, unfold merged in refl))
