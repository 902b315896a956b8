-- ===== src/Tests/States.antt =====
-- Runs of the theorems about the summaries and the saved state of a StreamLog.
use sketchlog.Prelude.{arith}
use sketchlog.Prelude.{◌≤◌}
use sketchlog.Prelude.{◌≡◌, refl, ◌⊎◌, true, [], ◌∷◌, ◌++◌, none, some, replicate}
use sketchlog.Prelude.Dict
use sketchlog.Prelude.Key.{int_beq}
use sketchlog.Prelude.Int.{◌-ℤ◌, ◌+ℤ◌, ℤ, pos, negsuc, ltb_ℤ}
use sketchlog.Prelude.Exec.{ok, err, Ensures}
use sketchlog.Sketch.Hash.{EventKey}
use sketchlog.Sketch.Cms
use sketchlog.Sketch.Hll
use sketchlog.Sketch.Hll.{Item}
use sketchlog.Sketch.Ddsketch
use sketchlog.Sketch.Ddsketch.{DdError}
use sketchlog.Sketch.Ddsketch.Batch.{add_batch}
use sketchlog.Sketch.Ddsketch.Summary.{IsSummary, fresh-IsSummary}
use sketchlog.Sketch.Ddsketch.Batched.{finite_values, add_batch-IsSummary}
use sketchlog.Log.{StreamLog, init, add_latency, add_latencies, add_event, add_unique, merge}
use sketchlog.Log.Valid.{IsStreamLog}
use sketchlog.Log.Percentile.{percentile, count_greater_than}
use sketchlog.Sketch.Ddsketch.Rank.{IsQuantile}
use sketchlog.Log.Answers.{percentile-IsQuantile, count_greater_than-counted}
use sketchlog.Sketch.Ddsketch.Seen.{IsSeen}
use sketchlog.Sketch.Ddsketch.Summary.{weight}
use sketchlog.Log.Summary.{HasSummary}
use sketchlog.Log.Summarised.{given, Reachable-HasSummary}
use sketchlog.Log.Reach.{
  Reachable, start, after_latency, after_latencies, after_event, after_unique, after_merge,
}
use sketchlog.Log.State.{to_dict, canonical_int, digits_from, canonical_nat, is_digit}
use sketchlog.Log.State.Decode.{from_dict}
use sketchlog.Log.State.Sound.{from_dict-IsStreamLog}
use sketchlog.Log.State.Saved.{from_dict-to_dict}
use sketchlog.Tests.Fixed.{fixed, fixed_keys}

abbrev new_log : StreamLog ℤ
unfolding Ddsketch.fresh Cms.init
new_log = record {
  latency = Ddsketch.fresh fixed (pos 10);
  events = elim (Cms.init (pos 8) (pos 2)) [
    | ok s ↦ s
    | err e ↦ record { width = 0; depth = 0; table = []; total = 0; seeds = [] }
  ];
  uniques = record { p = 4; registers = replicate 16 0 };
  total = 0;
}

new_log_made : init fixed (pos 10) (pos 4) (pos 8) (pos 2) ≡ ok new_log
unfolding init Ddsketch.init Ddsketch.fresh Cms.init Hll.init ltb_ℤ new_log
new_log_made = refl

-- A log with three latencies, a negative one and a zero among them, an event and an item.
abbrev full_log : StreamLog ℤ
full_log =
    (add_unique fixed (Item.int (pos 9))
      (add_event fixed (EventKey.int (pos 7)) (pos 3)
        (add_latencies fixed (negsuc 6999 ∷ pos 0 ∷ [])
          (add_latency fixed (pos 5000) new_log).1).1).1).1

full_log-Reachable : Reachable fixed full_log
full_log-Reachable = after_unique (Item.int (pos 9)) _ (
    after_event (EventKey.int (pos 7)) (pos 3) _ (
      after_latencies (negsuc 6999 ∷ pos 0 ∷ []) _ (
        after_latency (pos 5000) new_log
          (start (pos 10) (pos 4) (pos 8) (pos 2) new_log new_log_made))))

from_dict-to_dict_example : from_dict fixed (to_dict true full_log) ≡ ok (true, full_log)
from_dict-to_dict_example = from_dict-to_dict fixed fixed_keys true full_log full_log-Reachable

from_dict-IsStreamLog_example :
    Ensures (λ r. IsStreamLog r.1) (from_dict fixed (to_dict true full_log))
from_dict-IsStreamLog_example = from_dict-IsStreamLog fixed (to_dict true full_log)

Reachable-HasSummary_example : HasSummary fixed (merge fixed full_log full_log).1
Reachable-HasSummary_example =
    Reachable-HasSummary fixed fixed_keys (merge fixed full_log full_log).1
      (after_merge full_log full_log full_log-Reachable full_log-Reachable)

add_batch-IsSummary_example :
    ((e : DdError) × (add_batch fixed (pos 5000 ∷ negsuc 6999 ∷ []) (Ddsketch.fresh fixed (pos 10))
        ≡ (err e, Ddsketch.fresh fixed (pos 10))))
    ⊎ (((add_batch fixed (pos 5000 ∷ negsuc 6999 ∷ []) (Ddsketch.fresh fixed (pos 10))).0 ≡ ok tt)
        × IsSummary fixed
            (pos 10)
            (add_batch fixed (pos 5000 ∷ negsuc 6999 ∷ []) (Ddsketch.fresh fixed (pos 10))).1
            ([] ++ finite_values fixed (pos 5000 ∷ negsuc 6999 ∷ [])))
add_batch-IsSummary_example =
    add_batch-IsSummary fixed fixed_keys (pos 10) (Ddsketch.fresh fixed (pos 10)) []
      (fresh-IsSummary fixed (pos 10)) (pos 5000 ∷ negsuc 6999 ∷ [])

-- Texts of integers, canonical and not.
canonical_int_example :
    (canonical_int "-12" ≡ some (negsuc 11))
    × (canonical_int "007" ≡ none)
    × (canonical_int "-0" ≡ none)
    × (canonical_int "0" ≡ some (pos 0))
unfolding canonical_int canonical_nat digits_from is_digit
canonical_int_example = (refl, refl, refl, refl)

-- A log with one latency.
abbrev one_log : StreamLog ℤ
one_log = (add_latency fixed (pos 5000) new_log).1

one_log-Reachable : Reachable fixed one_log
one_log-Reachable =
    after_latency (pos 5000) new_log (start (pos 10) (pos 4) (pos 8) (pos 2) new_log new_log_made)

one_log_count : one_log.latency.count ≡ 1
unfolding add_latency Ddsketch.add Ddsketch.check_total Ddsketch.check_value Ddsketch.check_accuracy
    Ddsketch.check_fit Ddsketch.check_bin Ddsketch.store_can_fit Dict.contains Dict.get_or
    Ddsketch.key Ddsketch.is_inaccurate Ddsketch.bucket_value Ddsketch.commit Ddsketch.fresh ltb_ℤ
    int_beq ◌-ℤ◌ ◌+ℤ◌ new_log
one_log_count = refl

percentile-IsQuantile_example :
    (y : ℤ) × (percentile fixed (pos 500) one_log ≡ ok y)
    × IsQuantile fixed one_log.latency.alpha
        (given fixed fixed_keys one_log one_log-Reachable)
        (pos 500)
        y
    × IsSeen fixed fixed_keys one_log.latency.alpha
        (given fixed fixed_keys one_log one_log-Reachable)
        y
unfolding ltb_ℤ
percentile-IsQuantile_example =
    percentile-IsQuantile fixed fixed_keys one_log one_log-Reachable (pos 500)
      (omega (arith, one_log_count)) refl refl

count_greater_than-counted_example :
    weight
      (λ x. ltb_ℤ (pos 1000) x)
      (Reachable-HasSummary fixed fixed_keys full_log full_log-Reachable).values
    ≤ count_greater_than fixed (pos 1000) full_log
count_greater_than-counted_example =
    count_greater_than-counted fixed fixed_keys full_log full_log-Reachable (pos 1000) refl
