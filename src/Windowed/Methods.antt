-- ===== src/Windowed/Methods.antt =====
-- The methods of a `WindowedStreamLog`: every one of them first rotates the ring. `clock n` is the
-- n-th reading of `time.monotonic_ns()`.
use sketchlog.Prelude.{
  ℕ, zero, suc, ◌+◌, ◌-◌, ◌*◌, ◌||◌, Option, none, List, [], ◌∷◌, leb, if◌then◌else◌,
}
use sketchlog.Prelude.Int.{ℤ}
use sketchlog.Prelude.Exec.{Result, ok, err, Exec, and_then}
use sketchlog.Prelude.Float.{Float}
use sketchlog.Sketch.Hash.{EventKey}
use sketchlog.Sketch.Hll.{Item}
use sketchlog.Log.{StreamLog, LogError}
use sketchlog.Log
use sketchlog.Log.Unique.{unique_count}
use sketchlog.Windowed.{Bucket, Window, is_past, start_at, merge_live, restart_all, turn}

module _ {F : Type 0} where
  -- A method of the log of one bucket.
  unfoldable pub on_bucket :
      Exec LogError (StreamLog F) (Unit {0})
      → ℕ
      → List (Bucket F)
      → Result LogError (Unit {0}) × List (Bucket F)
  on_bucket op i [] = (ok tt, [])
  on_bucket op zero (b ∷ buckets) = let (r, log) = op b.log in (r, record b { log = log } ∷ buckets)
  on_bucket op (suc i) (b ∷ buckets) =
      let (r, buckets') = on_bucket op i buckets in (r, b ∷ buckets')

  -- `self._buckets[self._current_bucket].method(...)` and `self._merged.method(...)`
  abbrev pub on_current :
      Exec LogError (StreamLog F) (Unit {0}) → Exec LogError (Window F) (Unit {0})
  on_current op s =
      let (r, buckets) = on_bucket op s.current s.buckets in (r, record s { buckets = buckets })

  abbrev pub on_merged :
      Exec LogError (StreamLog F) (Unit {0}) → Exec LogError (Window F) (Unit {0})
  on_merged op s = let (r, merged) = op s.merged in (r, record s { merged = merged })

module _ (f : Float) (clock : ℕ → ℕ) where
  open f use {F}

  -- The end of `_rebuild_merged`: the time of expiry is written if nothing raised.
  abbrev pub finish_rebuild :
      Window F → Result LogError (Option ℕ) × StreamLog F → Result LogError (Unit {0}) × Window F
  finish_rebuild s (ok expires, merged) =
      (ok tt, record s { merged = merged; expires_at = expires; ticks = s.ticks + 1 })
  finish_rebuild s (err e, merged) = (err e, record s { merged = merged; ticks = s.ticks + 1 })

  -- `_rebuild_merged`
  unfoldable pub rebuild_merged : Exec LogError (Window F) (Unit {0})
  rebuild_merged s =
      finish_rebuild s
        (merge_live f (clock s.ticks) s.window_ns s.buckets none (Log.reset f s.merged))

  -- The ring after the `while` loop of `_rotate`, which needs at most a round for each bucket.
  unfoldable pub advance : ℕ → Window F → Window F
  advance now s =
      let t = turn f s.n_buckets s.duration s.n_buckets (record {
        elapsed = now - start_at s.current s.buckets;
        turned = s.buckets;
        cursor = s.current;
      }) in
      record s { buckets = t.turned; current = t.cursor; ticks = s.ticks + 1 }

  abbrev pub reset_all : ℕ → Window F → Window F
  reset_all now s = record s { buckets = restart_all f now s.buckets; ticks = s.ticks + 1 }

  -- `_rotate`; the loop sets `rotated` if it runs at all.
  unfoldable pub rotate : Exec LogError (Window F) (Unit {0})
  rotate s =
      let now = clock s.ticks in
      let elapsed = now - start_at s.current s.buckets in
      if leb (s.n_buckets * s.duration) elapsed
      then rebuild_merged (reset_all now s)
      else if is_past now s.expires_at || leb s.duration elapsed
      then rebuild_merged (advance now s)
      else (ok tt, advance now s)

  -- The writes: the current bucket and then the merged log.
  unfoldable pub write :
      Exec LogError (StreamLog F) (Unit {0}) → Exec LogError (Window F) (Unit {0})
  write op s = and_then (rotate s) (λ s'. and_then (on_current op s') (on_merged op))

  abbrev pub add_latency : F → Exec LogError (Window F) (Unit {0})
  add_latency value = write (Log.add_latency f value)

  abbrev pub add_event : EventKey → ℤ → Exec LogError (Window F) (Unit {0})
  add_event name n = write (Log.add_event f name n)

  abbrev pub add_unique : Item → Exec LogError (Window F) (Unit {0})
  add_unique item = write (Log.add_unique f item)

  -- The reads, of the merged log.
  abbrev pub read : {A : Type 0} → (StreamLog F → A) → Exec LogError (Window F) A
  read view s = and_then (rotate s) (λ s'. (ok (view s'.merged), s'))

  abbrev pub total_events : Exec LogError (Window F) ℕ
  total_events = read (λ log. log.total)

  abbrev pub unique_events : Exec LogError (Window F) ℕ
  unique_events = read (unique_count f)

  abbrev pub event_count : EventKey → Exec LogError (Window F) (Option ℕ)
  event_count name = read (λ log. Log.event_count f log name)

  abbrev pub sum_memory : List (Bucket F) → ℕ
  sum_memory [] = 0
  sum_memory (b ∷ buckets) = Log.memory_bytes f b.log + sum_memory buckets

  abbrev pub memory_bytes : Window F → ℕ
  memory_bytes s = sum_memory s.buckets + Log.memory_bytes f s.merged

  unfoldable pub reset : Window F → Window F
  reset s = record s {
    buckets = restart_all f (clock s.ticks) s.buckets;
    merged = Log.reset f s.merged;
    expires_at = none;
    current = 0;
    ticks = s.ticks + 1;
  }
