-- ===== src/Windowed.antt =====
-- windowed.py: a sliding window of StreamLogs, a ring of buckets that each cover a part of the
-- window, and one merged log that the reads use. The two parallel lists of the source, of the logs
-- and of their start times, are one list of pairs. Times are the nanoseconds of
-- `time.monotonic_ns()`, which never goes back: a difference of two of them that the source takes
-- is a number, and where it were negative, its comparisons fail as they do at 0.
pub mod Methods
pub mod Ring
pub mod Fresh
pub mod Valid
pub mod Rounds
pub mod Turned
pub mod Write
pub mod Reach
pub mod Rotate
use sketchlog.Prelude.{
  ℕ, zero, suc, ◌+◌, ◌-◌, ◌*◌, ◌/◌, ◌%◌, ◌≡◌, Bool, true, false, not, ◌&&◌, ◌||◌, Option, none,
  some, List, [], ◌∷◌, if◌then◌else◌, ltb, leb, ◌==◌, replicate,
}
use sketchlog.Prelude.Int.{ℤ, pos, negsuc, pos_part, ltb_ℤ}
use sketchlog.Prelude.Exec.{Result, ok, err, Exec, and_then, refuse_if, bind, lift}
use sketchlog.Prelude.Float.{Float}
use sketchlog.Sketch.Hash.{EventKey}
use sketchlog.Sketch.Hll.{Item}
use sketchlog.Log.{StreamLog, LogError}
use sketchlog.Log
use sketchlog.Log.Unique.{unique_count}

pub data WindowError : Type 0 where
  bad_buckets infinite_window bad_window too_long : WindowError
  of_log : LogError → WindowError

pub record Bucket (F : Type 0) : Type 0 where
  pub log : StreamLog F
  pub start : ℕ

-- `merged_expires_at` is `none` for infinity, `ticks` the readings of the clock so far.
pub record Window (F : Type 0) : Type 0 where
  pub window_ns : ℕ
  pub duration : ℕ
  pub n_buckets : ℕ
  pub buckets : List (Bucket F)
  pub current : ℕ
  pub merged : StreamLog F
  pub expires_at : Option ℕ
  pub ticks : ℕ

-- `now > merged_expires_at` and `expiry < expires_at`
abbrev pub is_past : ℕ → Option ℕ → Bool
is_past now none = false
is_past now (some t) = ltb t now

abbrev pub is_sooner : ℕ → Option ℕ → Bool
is_sooner expiry none = true
is_sooner expiry (some t) = ltb expiry t

-- The start time of the bucket at an index, which is always in range.
unfoldable pub start_at : {F : Type 0} → ℕ → List (Bucket F) → ℕ
start_at i [] = 0
start_at zero (b ∷ buckets) = b.start
start_at (suc i) (b ∷ buckets) = start_at i buckets

module _ (f : Float) where
  open f use {F, of_nat, mul, le, is_nan, is_inf, ceil}

  -- `_parse_window` of a number.
  unfoldable pub parse_window : F → Result WindowError F
  parse_window window =
      refuse_if (is_nan window || is_inf window) infinite_window
        (refuse_if (le window (of_nat 0)) bad_window (ok window))

  -- `math.ceil` of an infinite product raises.
  unfoldable pub nanoseconds : F → Result WindowError ℕ
  nanoseconds seconds =
      let product = mul seconds (of_nat 1000000000) in
      refuse_if (is_inf product) too_long (ok (pos_part (ceil product)))

  -- `__init__`; `tick` is its first reading of the clock, and the second one is kept nowhere.
  abbrev pub init_with : (n : ℕ) → (tick window_ns : ℕ) → StreamLog F → Window F
  init_with n tick window_ns log = record {
    window_ns = window_ns;
    duration = (window_ns + n - 1) / n;
    n_buckets = n;
    buckets = replicate n (record { log = log; start = tick });
    current = 0;
    merged = log;
    expires_at = none;
    ticks = 2;
  }

  unfoldable pub init : F → ℤ → F → ℤ → ℤ → ℤ → (tick : ℕ) → Result WindowError (Window F)
  init window n accuracy precision width depth tick =
      refuse_if (not (ltb_ℤ (pos 0) n)) bad_buckets (
        bind (parse_window window) (λ seconds. bind (nanoseconds seconds) (λ window_ns.
          bind (lift of_log (Log.init f accuracy precision width depth))
            (λ log. ok (init_with (pos_part n) tick window_ns log)))))

  -- `age <= window_ns and (total_events > 0 or unique_count() > 0)`
  abbrev pub is_used : StreamLog F → Bool
  is_used log = ltb 0 log.total || ltb 0 (unique_count f log)

  abbrev pub is_live : ℕ → ℕ → Bucket F → Bool
  is_live now window_ns b = leb (now - b.start) window_ns && is_used b.log

  abbrev pub sooner : ℕ → Option ℕ → Option ℕ
  sooner expiry expires = if is_sooner expiry expires then some expiry else expires

  -- The loop of `_rebuild_merged`. A merge that raises leaves what was merged before.
  unfoldable pub merge_live :
      (now window_ns : ℕ)
      → List (Bucket F)
      → Option ℕ
      → StreamLog F
      → Result LogError (Option ℕ) × StreamLog F
  merge_live now window_ns [] expires merged = (ok expires, merged)
  merge_live now window_ns (b ∷ buckets) expires merged =
      let skipped = merge_live now window_ns buckets expires merged in
      let next = merge_live now window_ns buckets (sooner (b.start + window_ns) expires) in
      if is_live now window_ns b then and_then (Log.merge f b.log merged) next else skipped

  -- `_active_buckets`
  unfoldable pub active_buckets : (now window_ns : ℕ) → List (Bucket F) → List (StreamLog F)
  active_buckets now window_ns [] = []
  active_buckets now window_ns (b ∷ buckets) =
      let rest = active_buckets now window_ns buckets in
      if is_live now window_ns b then b.log ∷ rest else rest

  -- What the loops of `_rotate` do to the bucket at an index: `reset`, and its new start time.
  unfoldable pub restart : ℕ → ℕ → List (Bucket F) → List (Bucket F)
  restart i t [] = []
  restart zero t (b ∷ buckets) = record { log = Log.reset f b.log; start = t } ∷ buckets
  restart (suc i) t (b ∷ buckets) = b ∷ restart i t buckets

  unfoldable pub restart_all : ℕ → List (Bucket F) → List (Bucket F)
  restart_all t [] = []
  restart_all t (b ∷ buckets) =
      record { log = Log.reset f b.log; start = t } ∷ restart_all t buckets

  -- What the `while` loop of `_rotate` changes: the time left, the buckets and the current one.
  pub record Turn : Type 0 where
    pub elapsed : ℕ
    pub turned : List (Bucket F)
    pub cursor : ℕ

  -- One round of the loop, and the loop on fuel.
  unfoldable pub turn_once : (duration n : ℕ) → Turn → Turn
  turn_once duration n t =
      let next = (t.cursor + 1) % n in
      record {
        elapsed = t.elapsed - duration;
        turned = restart next (start_at t.cursor t.turned + duration) t.turned;
        cursor = next;
      }

  unfoldable pub turn : (fuel duration n : ℕ) → Turn → Turn
  turn zero duration n t = t
  turn (suc fuel) duration n t =
      let rest = turn fuel duration n (turn_once duration n t) in
      if leb duration t.elapsed then rest else t
