-- ===== src/Log/State/Sound.antt =====
-- What `from_dict` accepts is a valid StreamLog.
use sketchlog.Prelude.Exec.{Ensures-weaken}
use sketchlog.Prelude.{
  ℕ, ◌+◌, ◌-◌, ◌/◌, ◌^◌, ◌≤◌, ◌<◌, ◌≡◌, refl, Bool, false, not, List, arith, ltb, ◌==◌, length, All,
}
use sketchlog.Prelude.Int.{pos}
use sketchlog.Prelude.Key.{int_key}
use sketchlog.Prelude.Exec.{
  lift, Ensures, Ensures-refuse_if, Ensures-unless, Ensures-bind, Ensures-lift,
}
use sketchlog.Prelude.Float.{Float}
use sketchlog.Sketch.Count.{max_int64, max_uint64}
use sketchlog.Sketch.Cms.Bump.{IsRow}
use sketchlog.Sketch.Ddsketch.{Dd}
use sketchlog.Sketch.Ddsketch.Valid.{IsDd}
use sketchlog.Log
use sketchlog.Log.{StreamLog, LogError, max_cells}
use sketchlog.Log.Valid.{IsStreamLog}
use sketchlog.Log.State.{Value, null, boolean, Fields}
use sketchlog.Log.State.Read.{
  no_dictionary, bad_version, bad_total, bad_precision, bad_registers, bad_width, bad_depth,
  too_many_cells, bad_events_total, bad_table, inconsistent_total, refused, bounded, at_least_one,
  bounded_list, item, item_or, as_dict, as_list, as_bool, is_version_1, size, read_rows,
}
use sketchlog.Log.State.Latency.{read_latency}
use sketchlog.Log.State.Decode.{
  read_uniques, read_table, read_events, restore, assemble, read_sketches, read_fields, from_dict,
}
use sketchlog.Log.State.Accepts.{
  Anything, anything, bounded-Ensures, at_least_one-Ensures, bounded_list-Ensures,
  read_rows-Ensures,
}
use sketchlog.Log.State.Made.{new_log, init-new_log}
use sketchlog.Log.State.ValidLatency.{read_latency-IsDd}

-- A table of the shape of the constructor's, whose rows add up to its total.
abbrev pub IsEvents : ℕ × ℕ × ℕ × List (List ℕ) → Type 0
IsEvents (width, depth, events_total, table) =
    (0 < width)
    × (0 < depth)
    × (events_total ≤ max_int64)
    × (length table ≡ depth)
    × All (IsRow width events_total) table

abbrev pub IsUniques : ℕ × List ℕ → Type 0
IsUniques (precision, registers) =
    (4 ≤ precision)
    × (precision ≤ 18)
    × (length registers ≡ 2 ^ precision)
    × All (λ r. r ≤ 64 - precision + 1) registers

module _ (f : Float) where
  open f use {F, of_nat, lt, eq, log, tiny, largest}

  read_uniques-IsUniques : (d : Fields F) → Ensures IsUniques (read_uniques f d)
  unfolding read_uniques
  read_uniques-IsUniques d =
      Ensures-bind Anything IsUniques (item "precision" d) _ (anything (item "precision" d))
        λ value _.
          Ensures-bind (λ p. p ≤ 18) IsUniques (bounded 18 bad_precision value) _
            (bounded-Ensures 18 bad_precision value)
            λ p high. Ensures-refuse_if IsUniques (ltb p 4) bad_precision _ λ low.
              Ensures-bind Anything IsUniques (item "registers" d) _ (anything (item "registers" d))
                λ list _.
                  Ensures-bind Anything IsUniques (as_list bad_registers list) _
                    (anything (as_list bad_registers list))
                    λ values _.
                      Ensures-refuse_if IsUniques (not (size values == 2 ^ p)) bad_registers _
                        λ tall.
                          Ensures-bind
                            (λ ns. All (λ n. n ≤ 64 - p + 1) ns × (length ns ≡ size values))
                            IsUniques (bounded_list (64 - p + 1) bad_registers values) _
                            (bounded_list-Ensures (64 - p + 1) bad_registers values)
                            λ registers h.
                              (ground (arith, low), high, ground (arith, tall, h.1), h.0)

  read_table-Ensures :
      (width depth events_total : ℕ) (d : Fields F)
      → Ensures
          (λ table. (length table ≡ depth) × All (IsRow width events_total) table)
          (read_table f width depth events_total d)
  unfolding read_table
  read_table-Ensures width depth events_total d =
      let P : List (List ℕ) → Type 0 =
        λ table. (length table ≡ depth) × All (IsRow width events_total) table in
      Ensures-bind Anything P (item "table" d) _ (anything (item "table" d)) λ value _.
        Ensures-bind Anything P (as_list bad_table value) _ (anything (as_list bad_table value))
          λ rows _.
            Ensures-refuse_if P (not (size rows == depth)) bad_table
              (read_rows width events_total rows)
              λ tall.
                Ensures-weaken
                  (λ table. (length table ≡ size rows) × All (IsRow width events_total) table) P
                  (read_rows width events_total rows) (read_rows-Ensures width events_total rows)
                  λ table h. (ground (arith, tall, h.0), h.1)

  read_events-IsEvents : (d : Fields F) → Ensures IsEvents (read_events f d)
  unfolding read_events
  read_events-IsEvents d =
      Ensures-bind Anything IsEvents (item "width" d) _ (anything (item "width" d)) λ width_value _.
        Ensures-bind Anything IsEvents (item "depth" d) _ (anything (item "depth" d))
          λ depth_value _.
            Ensures-bind (λ n. 0 < n) IsEvents (at_least_one bad_width width_value) _
              (at_least_one-Ensures bad_width width_value)
              λ width wide.
                Ensures-bind (λ n. 0 < n) IsEvents (at_least_one bad_depth depth_value) _
                  (at_least_one-Ensures bad_depth depth_value)
                  λ depth deep.
                    Ensures-unless IsEvents (ltb (max_cells / depth) width) too_many_cells _ (
                      Ensures-bind Anything IsEvents (item "total" d) _ (anything (item "total" d))
                        λ total_value _.
                          Ensures-bind (λ n. n ≤ max_int64) IsEvents
                            (bounded max_int64 bad_events_total total_value) _
                            (bounded-Ensures max_int64 bad_events_total total_value)
                            λ events_total fits.
                              Ensures-bind
                                (λ table.
                                  (length table ≡ depth) × All (IsRow width events_total) table)
                                IsEvents (read_table f width depth events_total d) _
                                (read_table-Ensures width depth events_total d)
                                λ table h. (wide, deep, fits, h.0, h.1))

  assemble-IsStreamLog :
      (all : ℕ) (s : Dd F) (u : ℕ × List ℕ) (e : ℕ × ℕ × ℕ × List (List ℕ))
      → all ≤ max_uint64
      → IsDd s
      → IsUniques u
      → IsEvents e
      → Ensures IsStreamLog (assemble f all s u e)
  unfolding assemble restore
  assemble-IsStreamLog all s (precision, registers) (width, depth, events_total, table) fits v h k =
      Ensures-refuse_if IsStreamLog (not (all == s.count + events_total)) inconsistent_total _
        λ consistent.
          Ensures-bind (λ made. made ≡ new_log f s.alpha precision width depth) IsStreamLog
            (lift refused (Log.init f s.alpha (pos precision) (pos width) (pos depth))) _
            (Ensures-lift (λ made. made ≡ new_log f s.alpha precision width depth) refused
              (Log.init f s.alpha (pos precision) (pos width) (pos depth))
              λ made e. rw e at (init-new_log f s.alpha precision width depth))
            λ made e. rw e (record {
              latency = record {
                positives = v.positives;
                negatives = v.negatives;
                zeros = v.zeros;
                counted = v.counted;
                fits = v.fits;
              };
              events = record {
                wide = k.0;
                deep = k.1;
                seeded = refl;
                tall = k.3;
                rows = k.4;
                fits = k.2;
              };
              uniques = record { low = h.0; high = h.1; count = h.2; ranks = h.3 };
              counted = ground (arith, consistent);
              fits = fits;
            })

  read_sketches-IsStreamLog :
      (all : ℕ) (d : Fields F) → all ≤ max_uint64 → Ensures IsStreamLog (read_sketches f all d)
  unfolding read_sketches
  read_sketches-IsStreamLog all d fits =
      Ensures-bind Anything IsStreamLog (item "latency" d) _ (anything (item "latency" d))
        λ latency_value _.
          Ensures-bind Anything IsStreamLog (as_dict no_dictionary latency_value) _
            (anything (as_dict no_dictionary latency_value))
            λ latency _.
              Ensures-bind IsDd IsStreamLog (read_latency f latency) _ (read_latency-IsDd f latency)
                λ s v.
                  Ensures-bind Anything IsStreamLog (item "uniques" d) _
                    (anything (item "uniques" d))
                    λ uniques_value _.
                      Ensures-bind Anything IsStreamLog (as_dict no_dictionary uniques_value) _
                        (anything (as_dict no_dictionary uniques_value))
                        λ uniques _.
                          Ensures-bind IsUniques IsStreamLog (read_uniques f uniques) _
                            (read_uniques-IsUniques uniques)
                            λ u h.
                              Ensures-bind Anything IsStreamLog (item "events" d) _
                                (anything (item "events" d))
                                λ events_value _.
                                  Ensures-bind Anything IsStreamLog
                                    (as_dict no_dictionary events_value) _
                                    (anything (as_dict no_dictionary events_value))
                                    λ events _.
                                      Ensures-bind IsEvents IsStreamLog (read_events f events) _
                                        (read_events-IsEvents events)
                                        λ e k. assemble-IsStreamLog all s u e fits v h k

  -- Whatever value `from_dict` is given, it raises, or the log that it returns is valid: its
  -- sketches are, and its total is the number of latencies and events that they count.
  pub from_dict-IsStreamLog : (v : Value F) → Ensures (λ r. IsStreamLog r.1) (from_dict f v)
  unfolding from_dict read_fields
  from_dict-IsStreamLog v =
      let P : Bool × StreamLog F → Type 0 = λ r. IsStreamLog r.1 in
      Ensures-bind Anything P (as_dict no_dictionary v) _ (anything (as_dict no_dictionary v))
        λ d _. Ensures-unless P (not (is_version_1 (item_or null "version" d))) bad_version _ (
          Ensures-bind Anything P (item "total" d) _ (anything (item "total" d)) λ value _.
            Ensures-bind (λ n. n ≤ max_uint64) P (bounded max_uint64 bad_total value) _
              (bounded-Ensures max_uint64 bad_total value)
              λ all fits.
                Ensures-bind Anything P (as_bool (item_or (boolean false) "deterministic" d)) _
                  (anything (as_bool (item_or (boolean false) "deterministic" d)))
                  λ deterministic _.
                    Ensures-bind IsStreamLog P (read_sketches f all d) _
                      (read_sketches-IsStreamLog all d fits) λ log h. h)
