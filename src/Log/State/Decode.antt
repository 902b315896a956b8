-- ===== src/Log/State/Decode.antt =====
-- facade.py: `from_dict`. Its checks run in their order, and each exception inside it, a missing
-- key or a value of another type included, becomes one ValueError.
use sketchlog.Prelude.{ℕ, ◌+◌, ◌-◌, ◌/◌, ◌^◌, Bool, false, not, List, ltb, ◌==◌, if◌then◌else◌}
use sketchlog.Prelude.Int.{pos}
use sketchlog.Prelude.Key.{int_key}
use sketchlog.Prelude.Exec.{Result, ok, refuse_if, bind, lift}
use sketchlog.Prelude.Float.{Float}
use sketchlog.Sketch.Count.{max_int64, max_uint64}
use sketchlog.Sketch.Bins.{total}
use sketchlog.Sketch.Ddsketch.{Dd}
use sketchlog.Log
use sketchlog.Log.{StreamLog, LogError, max_cells}
use sketchlog.Log.State.{Value, null, boolean, Fields}
use sketchlog.Log.State.Read.{
  StateError, no_dictionary, bad_version, bad_total, bad_precision, bad_registers, bad_width,
  bad_depth, too_many_cells, bad_events_total, bad_table, inconsistent_total, refused, bounded,
  at_least_one, bounded_list, item, item_or, as_dict, as_list, as_bool, is_version_1, size,
  read_rows,
}
use sketchlog.Log.State.Latency.{read_latency}

module _ (f : Float) where
  open f use {F}

  unfoldable pub read_uniques : Fields F → Result StateError (ℕ × List ℕ)
  read_uniques d = bind (item "precision" d) (λ value.
      bind (bounded 18 bad_precision value) (λ precision.
        refuse_if (ltb precision 4) bad_precision (
          bind (item "registers" d) (λ list. bind (as_list bad_registers list) (λ values.
            refuse_if (not (size values == 2 ^ precision)) bad_registers (
              bind (bounded_list (64 - precision + 1) bad_registers values)
                (λ registers. ok (precision, registers))))))))

  -- The width, the depth, the total and the table.
  unfoldable pub read_table : (width depth total : ℕ) → Fields F → Result StateError (List (List ℕ))
  read_table width depth total d = bind (item "table" d) (λ value.
      bind (as_list bad_table value)
        (λ rows. refuse_if (not (size rows == depth)) bad_table (read_rows width total rows)))

  unfoldable pub read_events : Fields F → Result StateError (ℕ × ℕ × ℕ × List (List ℕ))
  read_events d = bind (item "width" d) (λ width_value. bind (item "depth" d) (λ depth_value.
      bind (at_least_one bad_width width_value) (λ width.
        bind (at_least_one bad_depth depth_value) (λ depth.
          refuse_if (ltb (max_cells / depth) width) too_many_cells (
            bind (item "total" d) (λ total_value.
              bind (bounded max_int64 bad_events_total total_value) (λ total.
                bind (read_table width depth total d)
                  (λ table. ok (width, depth, total, table)))))))))

  -- The writes after the constructor has made a log.
  unfoldable pub restore : ℕ → Dd F → List ℕ → ℕ → List (List ℕ) → StreamLog F → StreamLog F
  restore total s registers events_total table made = record {
    latency = record made.latency {
      positive = s.positive;
      negative = s.negative;
      zero_count = s.zero_count;
      count = s.count;
      min = if ltb 0 s.count then s.min else made.latency.min;
      max = if ltb 0 s.count then s.max else made.latency.max;
    };
    uniques = record made.uniques { registers = registers };
    events = record made.events { table = table; total = events_total };
    total = total;
  }

  -- The aggregate check, and the constructor, which may refuse the accuracy.
  unfoldable pub assemble :
      ℕ → Dd F → ℕ × List ℕ → ℕ × ℕ × ℕ × List (List ℕ) → Result StateError (StreamLog F)
  assemble total s (precision, registers) (width, depth, events_total, table) =
      refuse_if (not (total == s.count + events_total)) inconsistent_total (
        bind (lift refused (Log.init f s.alpha (pos precision) (pos width) (pos depth)))
          (λ made. ok (restore total s registers events_total table made)))

  -- The three sketches, in their order.
  unfoldable pub read_sketches : ℕ → Fields F → Result StateError (StreamLog F)
  read_sketches total d = bind (item "latency" d) (λ latency_value.
      bind (as_dict no_dictionary latency_value) (λ latency. bind (read_latency f latency) (λ s.
        bind (item "uniques" d) (λ uniques_value.
          bind (as_dict no_dictionary uniques_value) (λ uniques. bind (read_uniques uniques) (λ u.
            bind (item "events" d) (λ events_value.
              bind (as_dict no_dictionary events_value)
                (λ events. bind (read_events events) (λ e. assemble total s u e)))))))))

  -- `from_dict`: the flag `deterministic` and the log.
  unfoldable pub read_fields : Fields F → Result StateError (Bool × StreamLog F)
  read_fields d = refuse_if (not (is_version_1 (item_or null "version" d))) bad_version (
      bind (item "total" d) (λ total_value.
        bind (bounded max_uint64 bad_total total_value) (λ total.
          bind (as_bool (item_or (boolean false) "deterministic" d))
            (λ deterministic. bind (read_sketches total d) (λ log. ok (deterministic, log))))))

  unfoldable pub from_dict : Value F → Result StateError (Bool × StreamLog F)
  from_dict v = bind (as_dict no_dictionary v) read_fields
