-- ===== src/Tests/Logs.antt =====
-- Runs of the theorems about StreamLog.
use sketchlog.Log.{merge_bins, merge_store, merge_row, merge_table}
use sketchlog.Prelude.{ℕ}
use sketchlog.Sketch.Hash.{hash}
use sketchlog.Prelude.Key.{int_beq}
use sketchlog.Log.{plan, plan_parts, bad_key}
use sketchlog.Prelude.{some, ◌≤◌}
use sketchlog.Log.{event_count}
use sketchlog.Log.Sums.{merge-event_count}
use sketchlog.Prelude.{◌+◌, ◌≡◌, refl, ◌⊎◌, [], replicate}
use sketchlog.Prelude.Int.{ℤ, pos, ltb_ℤ}
use sketchlog.Prelude.Exec.{ok, err}
use sketchlog.Sketch.Hash.{EventKey}
use sketchlog.Sketch.Cms
use sketchlog.Sketch.Hll
use sketchlog.Sketch.Hll.{Item}
use sketchlog.Sketch.Ddsketch
use sketchlog.Log.{StreamLog, LogError, init, add_latency, add_event, merge}
use sketchlog.Log.Valid.{IsStreamLog, merge-IsStreamLog}
use sketchlog.Log.Reach.{
  Reachable, start, after_latency, after_event, after_merge, Reachable-IsStreamLog,
}
use sketchlog.Tests.Whole.{whole, whole_order}

abbrev new_log : StreamLog ℤ
unfolding Ddsketch.fresh Cms.init
new_log = record {
  latency = Ddsketch.fresh whole (pos 0);
  events = elim (Cms.init (pos 8) (pos 2)) [
    | ok s ↦ s
    | err e ↦ record { width = 0; depth = 0; table = []; total = 0; seeds = [] }
  ];
  uniques = record { p = 4; registers = replicate 16 0 };
  total = 0;
}

new_log_made : init whole (pos 0) (pos 4) (pos 8) (pos 2) ≡ ok new_log
unfolding init Ddsketch.init Ddsketch.fresh Cms.init Hll.init ltb_ℤ new_log
new_log_made = refl

abbrev busy_log : StreamLog ℤ
busy_log = (add_event whole (EventKey.int (pos 7)) (pos 3) (add_latency whole (pos 5) new_log).1).1

new_log-Reachable : Reachable whole new_log
new_log-Reachable = start (pos 0) (pos 4) (pos 8) (pos 2) new_log new_log_made

busy_log-Reachable : Reachable whole busy_log
busy_log-Reachable =
    after_event (EventKey.int (pos 7)) (pos 3) _ (after_latency (pos 5) new_log new_log-Reachable)

Reachable-IsStreamLog_example : IsStreamLog (merge whole busy_log new_log).1
Reachable-IsStreamLog_example =
    Reachable-IsStreamLog whole whole_order (merge whole busy_log new_log).1
      (after_merge new_log busy_log new_log-Reachable busy_log-Reachable)

new_log-IsStreamLog : IsStreamLog new_log
new_log-IsStreamLog = Reachable-IsStreamLog whole whole_order new_log new_log-Reachable

busy_log-IsStreamLog : IsStreamLog busy_log
busy_log-IsStreamLog = Reachable-IsStreamLog whole whole_order busy_log busy_log-Reachable

merge-IsStreamLog_example :
    IsStreamLog (merge whole busy_log new_log).1
    × (((e : LogError) × (merge whole busy_log new_log ≡ (err e, new_log)))
        ⊎ (((merge whole busy_log new_log).0 ≡ ok tt)
            × ((merge whole busy_log new_log).1.total ≡ new_log.total + busy_log.total)))
merge-IsStreamLog_example =
    merge-IsStreamLog whole new_log busy_log new_log-IsStreamLog busy_log-IsStreamLog

-- A log of one event alone, which merges with itself.
abbrev event_log : StreamLog ℤ
event_log = (add_event whole (EventKey.int (pos 7)) (pos 3) new_log).1

event_log-IsStreamLog : IsStreamLog event_log
event_log-IsStreamLog =
    Reachable-IsStreamLog whole whole_order event_log
      (after_event (EventKey.int (pos 7)) (pos 3) new_log new_log-Reachable)

event_log_count : event_count whole event_log (EventKey.int (pos 7)) ≡ some 3
unfolding new_log event_count Cms.estimate Cms.estimate_from Cms.columns hash Cms.key_of Cms.init
    add_event bad_key Cms.add Cms.bump Ddsketch.fresh
event_log_count = refl

event_log_merges : (merge whole event_log event_log).0 ≡ ok tt
unfolding new_log merge plan plan_parts merge_store merge_bins merge_table merge_row int_beq
    add_event bad_key Cms.add Cms.bump Cms.columns hash Cms.key_of Cms.init Ddsketch.fresh
event_log_merges = refl

merge-event_count_example :
    (c : ℕ) × (event_count whole (merge whole event_log event_log).1 (EventKey.int (pos 7))
      ≡ some c)
    × (3 + 3 ≤ c)
merge-event_count_example =
    merge-event_count whole event_log event_log (EventKey.int (pos 7)) 3 3 event_log-IsStreamLog
      event_log-IsStreamLog event_log_merges event_log_count event_log_count
