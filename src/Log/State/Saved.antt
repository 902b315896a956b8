-- ===== src/Log/State/Saved.antt =====
-- Every log that the methods can produce is restored by `from_dict` from what `to_dict` wrote.
use mathlib.Core.Path.{subst}
use sketchlog.Prelude.{
  ◌-◌, ◌/◌, ◌≡◌, refl, sym, ◌∙◌, inl, inr, Bool, false, not, ◌||◌, List, [], arith, ltb, Bool-cases,
}
use sketchlog.Prelude.Int.{ℤ, pos, negsuc}
use sketchlog.Prelude.Exec.{
  Result, ok, err, lift, Ensures, Ensures-refuse_if, Ensures-unless, Ensures-bind, Ensures-lift,
}
use sketchlog.Prelude.Float.{Float, FloatKeys, FloatOrder}
use sketchlog.Sketch.Hash.{EventKey}
use sketchlog.Sketch.Hll.{Item}
use sketchlog.Sketch.Count.{Count, is_positive, amount, max_int64, max_uint64}
use sketchlog.Sketch.Cms.Valid.{IsCms, add_outcome}
use sketchlog.Log.State.Made.{init-new_events}
use sketchlog.Sketch.Ddsketch.{Dd, fresh}
use sketchlog.Sketch.Ddsketch.Summary.{Among, no_weight}
use sketchlog.Sketch.Cms.{Cms}
use sketchlog.Sketch.Cms
use sketchlog.Sketch.Hll
use sketchlog.Sketch.Ddsketch
use sketchlog.Log
use sketchlog.Log.{StreamLog, LogError, max_cells}
use sketchlog.Log.Summary.{HasSummary}
use sketchlog.Log.Summarised.{Reachable-HasSummary}
use sketchlog.Log.Reach.{
  Reachable, start, after_latency, after_latencies, after_event, after_unique, after_reset,
  after_merge, Reachable-IsStreamLog,
}
use sketchlog.Log.State.{to_dict}
use sketchlog.Log.State.Decode.{from_dict}
use sketchlog.Log.State.Accepts.{Anything, anything}
use sketchlog.Log.State.RoundTrip.{IsRestorable, from_dict-to_dict_lem}
use sketchlog.Log.State.Extrema.{positive-InRange, negative-InRange, extrema-Passes}

-- The constructor bounds the size of the table, and no method changes it.
abbrev IsSized : Cms → Type 0
IsSized s = ltb (max_cells / s.depth) s.width ≡ false

init-IsSized_events :
    (width depth : ℤ) (s : Cms)
    → Cms.init width depth ≡ ok s
    → ltb (max_cells / amount depth) (amount width) ≡ false
    → IsSized s
init-IsSized_events (pos w) (pos d) s made small =
    let e = rw made at (init-new_events w d) in rw e small
init-IsSized_events (pos w) (negsuc d) s made small = unfold Cms.init in ground (arith, made)
init-IsSized_events (negsuc w) d s made small = unfold Cms.init in ground (arith, made)

-- `add` does not change the dimensions, whether it raises or not.
events-add :
    (item : EventKey) (count : Count) (s : Cms)
    → IsCms s
    → ((Cms.add item count s).1.width ≡ s.width) × ((Cms.add item count s).1.depth ≡ s.depth)
events-add item count s v = elim (add_outcome item count s v) [
  | inl (e, raised) ↦ rw raised (refl, refl)
  | inr (n, _, room, returned) ↦ rw returned (refl, refl)
]

module _ (f : Float) where
  open f use {F, inf, neg}

  init-IsSized :
      (accuracy : F) (precision width depth : ℤ)
      → Ensures (λ s. IsSized s.events) (Log.init f accuracy precision width depth)
  unfolding Log.init
  init-IsSized accuracy precision width depth =
      let P : StreamLog F → Type 0 = λ s. IsSized s.events in
      Ensures-unless P (not (is_positive width) || not (is_positive depth)) LogError.bad_dimensions
        _
        (Ensures-refuse_if P (ltb (max_cells / amount depth) (amount width)) LogError.too_many_cells
          (Log.init_sketches f accuracy precision width depth)
          λ small.
            Ensures-bind Anything P (lift LogError.of_latency (Ddsketch.init f accuracy)) _
              (anything (lift LogError.of_latency (Ddsketch.init f accuracy)))
              λ latency _.
                Ensures-bind IsSized P (lift LogError.of_events (Cms.init width depth)) _
                  (Ensures-lift IsSized LogError.of_events (Cms.init width depth)
                    λ s e. init-IsSized_events width depth s e small)
                  λ events sized.
                    Ensures-bind Anything P (lift LogError.of_uniques (Hll.init precision)) _
                      (anything (lift LogError.of_uniques (Hll.init precision))) λ uniques _. sized)

  -- No method changes the dimensions.
  abbrev SameSize : StreamLog F → StreamLog F → Type 0
  SameSize s t = (t.events.width ≡ s.events.width) × (t.events.depth ≡ s.events.depth)

  IsSized-same : (s t : StreamLog F) → SameSize s t → IsSized s.events → IsSized t.events
  IsSized-same s t (w, d) h = rw (w, d) h

  add_latency-SameSize : (value : F) (s : StreamLog F) → SameSize s (Log.add_latency f value s).1
  unfolding Log.add_latency
  add_latency-SameSize value s = ground arith

  add_latencies-SameSize :
      (values : List F) (s : StreamLog F) → SameSize s (Log.add_latencies f values s).1
  unfolding Log.add_latencies
  add_latencies-SameSize values s = ground arith

  add_event-SameSize :
      (name : EventKey) (n : ℤ) (s : StreamLog F)
      → IsCms s.events
      → SameSize s (Log.add_event f name n s).1
  unfolding Log.add_event
  add_event-SameSize name n s v =
      let (wide, deep) = events-add name (Count.int n) s.events v in
      elim (Bool-cases (is_positive n)) [
        | inr nonpos ↦ rw nonpos (refl, refl)
        | inl positive ↦ elim (Bool-cases (ltb max_int64 (amount n))) [
          | inl large ↦ rw (positive, large) (refl, refl)
          | inr small ↦ elim (Bool-cases (Log.bad_key name)) [
            | inl bad ↦ rw (positive, small, bad) (refl, refl)
            | inr good ↦ elim (Bool-cases (ltb (max_uint64 - amount n) s.total)) [
              | inl full ↦ rw (positive, small, good, full) (refl, refl)
              | inr room ↦
                  rw (positive, small, good, room)
                    (counted (Cms.add name (Count.int n) s.events) wide deep)
            ]
          ]
        ]
      ]
    where
      counted :
          (r : Result Cms.CmsError (Unit {0}) × Cms)
          → r.1.width ≡ s.events.width
          → r.1.depth ≡ s.events.depth
          → SameSize s (Log.count_event f (amount n) s r).1
      counted (err e, events) wide deep = (wide, deep)
      counted (ok _, events) wide deep = (wide, deep)

  add_unique-SameSize : (item : Item) (s : StreamLog F) → SameSize s (Log.add_unique f item s).1
  unfolding Log.add_unique
  add_unique-SameSize item s = ground arith

  reset-SameSize : (s : StreamLog F) → SameSize s (Log.reset f s)
  unfolding Log.reset Cms.reset
  reset-SameSize s = (refl, refl)

  merge-SameSize : (s t : StreamLog F) → SameSize s (Log.merge f t s).1
  unfolding Log.merge Log.merged
  merge-SameSize s t = ground arith

  Reachable-IsSized : (laws : FloatOrder f) (s : StreamLog F) → Reachable f s → IsSized s.events
  Reachable-IsSized laws _ (start accuracy precision width depth s made) =
      rw made at (init-IsSized accuracy precision width depth)
  Reachable-IsSized laws _ (after_latency value s r) =
      IsSized-same s (Log.add_latency f value s).1 (add_latency-SameSize value s)
        (Reachable-IsSized laws s r)
  Reachable-IsSized laws _ (after_latencies values s r) =
      IsSized-same s (Log.add_latencies f values s).1 (add_latencies-SameSize values s)
        (Reachable-IsSized laws s r)
  Reachable-IsSized laws _ (after_event name n s r) =
      IsSized-same s (Log.add_event f name n s).1
        (add_event-SameSize name n s (Reachable-IsStreamLog f laws s r).events)
        (Reachable-IsSized laws s r)
  Reachable-IsSized laws _ (after_unique item s r) =
      IsSized-same s (Log.add_unique f item s).1 (add_unique-SameSize item s)
        (Reachable-IsSized laws s r)
  Reachable-IsSized laws _ (after_reset s r) =
      IsSized-same s (Log.reset f s) (reset-SameSize s) (Reachable-IsSized laws s r)
  Reachable-IsSized laws _ (after_merge s t r q) =
      IsSized-same s (Log.merge f t s).1 (merge-SameSize s t) (Reachable-IsSized laws s r)

  module _ (laws : FloatKeys f) where
    empty_extrema :
        (s : StreamLog F) (h : HasSummary f s)
        → h.values ≡ []
        → (s.latency.min ≡ inf) × (s.latency.max ≡ neg inf)
    empty_extrema s h e = (
      elim (h.summary.lowest) [
        | inl (_, m) ↦ m
        | inr at ↦ absurd (subst (Among s.latency.min) e at)
      ],
      elim (h.summary.highest) [
        | inl (_, m) ↦ m
        | inr at ↦ absurd (subst (Among s.latency.max) e at)
      ],
    )

    Reachable-IsRestorable : (s : StreamLog F) → Reachable f s → IsRestorable f s
    Reachable-IsRestorable s r =
        let v = Reachable-IsStreamLog f laws.order s r in
        let h = Reachable-HasSummary f laws s r in
        let same = h.summary.alpha in
        record {
          valid = v;
          low = rw same (h.low);
          above_zero = rw same (laws.millionth_pos h.accuracy h.low);
          high = rw same (h.high);
          spread = rw (h.summary.gamma) (unfold fresh in (laws.rate h.accuracy h.low h.high).0);
          gamma = rw same (h.summary.gamma);
          multiplier = rw same (h.summary.multiplier);
          cells = Reachable-IsSized laws.order s r;
          positive = rw same (
              positive-InRange f laws h.accuracy h.low h.high s.latency h.values h.summary
                v.latency);
          negative = rw same (
              negative-InRange f laws h.accuracy h.low h.high s.latency h.values h.summary
                v.latency);
          extrema =
              extrema-Passes f laws h.accuracy h.low h.high s.latency h.values h.summary v.latency;
          no_extrema = λ none_of.
              empty_extrema s h
                (no_weight f h.values h.summary.finite (sym h.summary.counted ∙ none_of));
        }

    -- Every log that the methods produce from new ones, by calls that return or raise and by merges
    -- of logs so produced, is restored by `from_dict` from the dictionary that `to_dict` gives, with
    -- its flag `deterministic` and every counter, bucket, register and extremum as they were.
    pub from_dict-to_dict :
        (deterministic : Bool) (s : StreamLog F)
        → Reachable f s
        → from_dict f (to_dict deterministic s) ≡ ok (deterministic, s)
    from_dict-to_dict deterministic s r =
        from_dict-to_dict_lem f s (Reachable-IsRestorable s r) deterministic
