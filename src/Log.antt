-- ===== src/Log.antt =====
-- facade.py: `_PythonStreamLog`, the three sketches behind one interface. Its `merge` first
-- computes the new stores and tables, and writes them only when no check has failed.
pub mod Merge
pub mod Valid
pub mod Methods
pub mod Reach
pub mod Summary
pub mod Summarised
pub mod Percentile
pub mod Answers
pub mod State
pub mod Sums
pub mod Unique
use sketchlog.Sketch.Ddsketch.Batch.{add_batch, finite_count}
use sketchlog.Prelude.{
  ℕ, zero, suc, ◌+◌, ◌-◌, ◌*◌, ◌/◌, ◌≡◌, Bool, true, false, not, ◌&&◌, ◌||◌, Option, List, [], ◌∷◌,
  arith, ltb, ◌==◌, if◌then◌else◌, length,
}
use sketchlog.Prelude.Int.{ℤ, pos, negsuc}
use sketchlog.Prelude.Dict
use sketchlog.Prelude.Key.{int_key}
use sketchlog.Prelude.Exec.{Result, ok, err, Exec, raise_if, refuse_if, bind, lift}
use sketchlog.Prelude.Float.{Float, fmin, fmax}
use sketchlog.Sketch.Hash.{EventKey}
use sketchlog.Sketch.Count.{Count, max_int64, max_uint64, is_positive, amount}
use sketchlog.Sketch.Bins.{Bins, bump}
use sketchlog.Sketch.Cms
use sketchlog.Sketch.Cms.{Cms, CmsError}
use sketchlog.Sketch.Hll
use sketchlog.Sketch.Hll.{Hll, HllError, Item, zip_max}
use sketchlog.Sketch.Ddsketch
use sketchlog.Sketch.Ddsketch.{Dd, DdError, max_bins}

-- The exceptions; those of a sketch pass through.
pub data LogError : Type 0 where
  bad_dimensions too_many_cells events_full bad_count count_capacity key_range : LogError
  alpha_mismatch precision_mismatch dimension_mismatch latency_overflow zero_overflow : LogError
  total_overflow bin_overflow bins_full cell_overflow : LogError
  of_latency : DdError → LogError
  of_events : CmsError → LogError
  of_uniques : HllError → LogError

pub record StreamLog (F : Type 0) : Type 0 where
  pub latency : Dd F
  pub events : Cms
  pub uniques : Hll
  pub total : ℕ

abbrev pub max_cells : ℕ
max_cells = 1000000

-- `isinstance(name, int) and not (0 <= name <= 0xFFFFFFFFFFFFFFFF)`, of an event and of an item.
unfoldable pub bad_key : EventKey → Bool
bad_key (EventKey.int (pos n)) = ltb max_uint64 n
bad_key (EventKey.int (negsuc n)) = true
bad_key _ = false

unfoldable pub bad_item : Item → Bool
bad_item (Item.int (pos n)) = ltb max_uint64 n
bad_item (Item.int (negsuc n)) = true
bad_item _ = false

module _ (f : Float) where
  open f use {F, eq, is_nan, is_inf}

  -- `__init__` below its own checks: one sketch after the other, and any of them may raise.
  abbrev pub init_uniques : ℤ → Dd F → Cms → Result LogError (StreamLog F)
  init_uniques precision latency events =
      bind (lift of_uniques (Hll.init precision)) (λ uniques.
        ok (record { latency = latency; events = events; uniques = uniques; total = 0 }))

  abbrev pub init_events : ℤ → ℤ → ℤ → Dd F → Result LogError (StreamLog F)
  init_events precision width depth latency =
      bind (lift of_events (Cms.init width depth)) (init_uniques precision latency)

  abbrev pub init_sketches : F → ℤ → ℤ → ℤ → Result LogError (StreamLog F)
  init_sketches accuracy precision width depth =
      bind (lift of_latency (Ddsketch.init f accuracy)) (init_events precision width depth)

  -- `__init__`
  unfoldable pub init : F → ℤ → ℤ → ℤ → Result LogError (StreamLog F)
  init accuracy precision width depth =
      refuse_if (not (is_positive width) || not (is_positive depth)) bad_dimensions (
        refuse_if (ltb (max_cells / amount depth) (amount width)) too_many_cells
          (init_sketches accuracy precision width depth))

  -- `add_latency` counts an event when the sketch has counted the value.
  abbrev pub count_latency :
      StreamLog F → Result DdError (Unit {0}) × Dd F → Result LogError (Unit {0}) × StreamLog F
  count_latency s (err e, latency) = (err (of_latency e), record s { latency = latency })
  count_latency s (ok _, latency) = (
    ok tt,
    record s {
      latency = latency;
      total = if ltb s.latency.count latency.count then s.total + 1 else s.total;
    },
  )

  unfoldable pub add_latency : F → Exec LogError (StreamLog F) (Unit {0})
  add_latency value s =
      raise_if (not (is_nan value || is_inf value) && s.total == max_uint64) events_full
        (λ s'. count_latency s' (Ddsketch.add f value (Count.int (pos 1)) s'.latency)) s

  -- `add_batch` counts the values that the sketch has counted.
  abbrev pub count_batch :
      StreamLog F → Result DdError (Unit {0}) × Dd F → Result LogError (Unit {0}) × StreamLog F
  count_batch s (err e, latency) = (err (of_latency e), record s { latency = latency })
  count_batch s (ok _, latency) =
      (ok tt, record s { latency = latency; total = s.total + (latency.count - s.latency.count) })

  unfoldable pub add_latencies : List F → Exec LogError (StreamLog F) (Unit {0})
  add_latencies values s =
      raise_if (ltb max_uint64 (s.total + finite_count f values)) events_full
        (λ s'. count_batch s' (add_batch f values s'.latency)) s

  -- `add_event`; its `count` is an `int`.
  abbrev pub count_event :
      ℕ → StreamLog F → Result CmsError (Unit {0}) × Cms → Result LogError (Unit {0}) × StreamLog F
  count_event n s (err e, events) = (err (of_events e), record s { events = events })
  count_event n s (ok _, events) = (ok tt, record s { events = events; total = s.total + n })

  unfoldable pub add_event : EventKey → ℤ → Exec LogError (StreamLog F) (Unit {0})
  add_event name n s =
      raise_if (not (is_positive n)) bad_count
        (raise_if (ltb max_int64 (amount n)) count_capacity (
          raise_if (bad_key name) key_range (
            raise_if (ltb (max_uint64 - amount n) s.total) events_full
              (λ s'. count_event (amount n) s' (Cms.add name (Count.int n) s'.events)))))
        s

  -- `add_unique` does not count an event.
  abbrev pub store_unique :
      StreamLog F → Result HllError (Unit {0}) × Hll → Result LogError (Unit {0}) × StreamLog F
  store_unique s (r, uniques) = (lift of_uniques r, record s { uniques = uniques })

  unfoldable pub add_unique : Item → Exec LogError (StreamLog F) (Unit {0})
  add_unique item s =
      raise_if (bad_item item) key_range (λ s'. store_unique s' (Hll.add item s'.uniques)) s

  unfoldable pub event_count : StreamLog F → EventKey → Option ℕ
  event_count s name = Cms.estimate s.events name

  unfoldable pub memory_bytes : StreamLog F → ℕ
  memory_bytes s =
      Ddsketch.memory_bytes f s.latency + Cms.memory_bytes s.events + Hll.memory_bytes s.uniques

  unfoldable pub reset : StreamLog F → StreamLog F
  reset s = record {
    latency = Ddsketch.reset f s.latency;
    events = Cms.reset s.events;
    uniques = Hll.reset s.uniques;
    total = 0;
  }

-- One dictionary of buckets added to another, bucket by bucket. On Python's integers
-- `left > limit - right` is `left + right > limit`, also where the difference is negative.
unfoldable pub merge_bins : Bins → Bins → Result LogError Bins
merge_bins store [] = ok store
merge_bins store ((idx, n) ∷ other) =
    refuse_if (ltb max_int64 (Dict.get_or idx 0 store + n)) bin_overflow
      (merge_bins (bump idx n store) other)

unfoldable pub merge_store : Bins → Bins → Result LogError Bins
merge_store store other =
    bind (merge_bins store other)
      (λ merged. refuse_if (ltb max_bins (length merged)) bins_full (ok merged))

-- Two tables added cell by cell.
unfoldable pub merge_row : List ℕ → List ℕ → Result LogError (List ℕ)
merge_row (left ∷ row) (right ∷ other) =
    refuse_if (ltb max_int64 (left + right)) cell_overflow
      (bind (merge_row row other) (λ rest. ok ((left + right) ∷ rest)))
merge_row _ _ = ok []

unfoldable pub merge_table : List (List ℕ) → List (List ℕ) → Result LogError (List (List ℕ))
merge_table (row ∷ rows) (other ∷ others) =
    bind (merge_row row other)
      (λ merged. bind (merge_table rows others) (λ rest. ok (merged ∷ rest)))
merge_table _ _ = ok []

-- What `merge` computes before it writes.
pub record Parts : Type 0 where
  pub positive : Bins
  pub negative : Bins
  pub table : List (List ℕ)

module _ (f : Float) where
  open f use {F, eq}

  unfoldable pub plan_parts : StreamLog F → StreamLog F → Result LogError Parts
  plan_parts s t = bind (merge_store s.latency.positive t.latency.positive) (λ positive.
      bind (merge_store s.latency.negative t.latency.negative) (λ negative.
        bind (merge_table s.events.table t.events.table)
          (λ table. ok (record { positive = positive; negative = negative; table = table }))))

  -- The checks of `merge`, in their order.
  unfoldable pub plan : StreamLog F → StreamLog F → Result LogError Parts
  plan s t = refuse_if (not (eq s.latency.alpha t.latency.alpha)) alpha_mismatch (
      refuse_if (not (s.uniques.p == t.uniques.p)) precision_mismatch (
        refuse_if (not (s.events.width == t.events.width) || not (s.events.depth == t.events.depth))
          dimension_mismatch
          (refuse_if (ltb max_uint64 (s.total + t.total)) events_full (
            refuse_if (ltb max_uint64 (s.latency.count + t.latency.count)) latency_overflow (
              refuse_if (ltb max_int64 (s.latency.zero_count + t.latency.zero_count)) zero_overflow
                (refuse_if (ltb max_int64 (s.events.total + t.events.total)) total_overflow
                  (plan_parts s t)))))))

  -- The commit of `merge`. `min(a, b)` of Python is `a` unless `b` is smaller.
  unfoldable pub merged : StreamLog F → StreamLog F → Parts → StreamLog F
  merged s t parts = record {
    latency = record s.latency {
      positive = parts.positive;
      negative = parts.negative;
      zero_count = s.latency.zero_count + t.latency.zero_count;
      count = s.latency.count + t.latency.count;
      min = if ltb 0 t.latency.count then fmin f s.latency.min t.latency.min else s.latency.min;
      max = if ltb 0 t.latency.count then fmax f s.latency.max t.latency.max else s.latency.max;
    };
    uniques = record s.uniques { registers = zip_max s.uniques.registers t.uniques.registers };
    events = record s.events { table = parts.table; total = s.events.total + t.events.total };
    total = s.total + t.total;
  }

  abbrev pub commit_merge :
      StreamLog F → StreamLog F → Result LogError Parts → Result LogError (Unit {0}) × StreamLog F
  commit_merge s t (err e) = (err e, s)
  commit_merge s t (ok parts) = (ok tt, merged s t parts)

  -- `s.merge(t)`
  unfoldable pub merge : StreamLog F → Exec LogError (StreamLog F) (Unit {0})
  merge t s = commit_merge s t (plan s t)
