-- ===== src/Sketch/Ddsketch/Valid.antt =====
-- The invariant of the DDSketch: the total is the sum of all counters, the stores hold at most
-- `MAX_BINS` buckets, and no counter leaves its machine width. Every branch of `add` keeps it.
use mathlib.Core.Path.{subst}
use sketchlog.Prelude.{ℕ, ◌+◌, ◌≤◌, ◌<◌, ◌≡◌, inl, inr, true, false, [], arith, length, Bool-cases}
use sketchlog.Prelude.Int.{ℤ}
use sketchlog.Prelude.Key.{int_key}
use sketchlog.Prelude.Dict.{IsDict}
use sketchlog.Prelude.Exec.{ok}
use sketchlog.Prelude.Float.{Float, FloatOrder}
use sketchlog.Sketch.Count.{Count, max_int64, max_uint64}
use sketchlog.Sketch.Bins.{
  Bins, bump, total, IsCounts, total-bump, bump-IsCounts, bump-IsDict, length-bump,
}
use sketchlog.Sketch.Ddsketch.Outcome.{HasRoom, Accepts, add-Outcome}
use sketchlog.Sketch.Ddsketch.{fresh, Dd, max_bins, init, key, store_can_fit, commit, add, reset}

-- One store of buckets.
pub record IsStore (store : Bins) : Type 0 where
  pub distinct : IsDict store
  pub bounded : length store ≤ max_bins
  pub counts : IsCounts max_int64 store

pub record IsDd {F : Type 0} (s : Dd F) : Type 0 where
  pub positives : IsStore s.positive
  pub negatives : IsStore s.negative
  pub zeros : s.zero_count ≤ max_int64
  pub counted : s.count ≡ s.zero_count + total s.positive + total s.negative
  pub fits : s.count ≤ max_uint64

empty-IsStore : IsStore []
empty-IsStore = record { distinct = tt; bounded = omega arith; counts = tt }

bump-bounded :
    (store : Bins) (idx : ℤ) (n : ℕ)
    → store_can_fit store idx ≡ true
    → length store ≤ max_bins
    → length (bump idx n store) ≤ max_bins
unfolding store_can_fit
bump-bounded store idx n fit h = ground (arith, length-bump idx n store)

bump-IsStore :
    (store : Bins) (idx : ℤ) (n : ℕ)
    → 0 < n
    → HasRoom store idx n
    → IsStore store
    → IsStore (bump idx n store)
bump-IsStore store idx n p r v = record {
  distinct = bump-IsDict idx n store v.distinct;
  bounded = bump-bounded store idx n r.fit v.bounded;
  counts = bump-IsCounts max_int64 idx n store p r.room v.counts;
}

module _ (f : Float) (laws : FloatOrder f) where
  open f use {F, of_nat, lt, eq, neg, abs, is_nan, is_inf}

  fresh-IsDd : (accuracy : F) → IsDd (fresh f accuracy)
  unfolding fresh
  fresh-IsDd accuracy = record {
    positives = empty-IsStore;
    negatives = empty-IsStore;
    zeros = omega arith;
    counted = omega arith;
    fits = omega arith;
  }

  pub init-IsDd : (accuracy : F) (s : Dd F) → init f accuracy ≡ ok s → IsDd s
  unfolding init
  init-IsDd accuracy s h =
      let e : fresh f accuracy ≡ s = ground arith in subst IsDd e (fresh-IsDd accuracy)

  pub reset-IsDd : (s : Dd F) → IsDd (reset f s)
  unfolding reset
  reset-IsDd s = record {
    positives = empty-IsStore;
    negatives = empty-IsStore;
    zeros = omega arith;
    counted = omega arith;
    fits = omega arith;
  }

  module _ (value : F) (n : ℕ) (s : Dd F) (a : Accepts f value n s) (v : IsDd s) where
    -- The three places where a value is counted.
    positive-IsDd : lt (of_nat 0) value ≡ true → IsDd (commit f value n s)
    unfolding commit
    positive-IsDd up = elim a.bin [
      | inl (is_zero, _) ↦ cc ((laws.eq_not_lt value (of_nat 0) is_zero).1)
      | inr (_, room) ↦
          let room' : HasRoom s.positive (key f s value) n =
            rw (up, laws.abs_pos value up) at room in
          rw up (record {
            positives = bump-IsStore s.positive (key f s value) n a.positive room' v.positives;
            negatives = v.negatives;
            zeros = v.zeros;
            counted = omega (arith, v.counted, total-bump (key f s value) n s.positive);
            fits = a.fits;
          })
    ]

    negative-IsDd :
        lt (of_nat 0) value ≡ false → lt value (of_nat 0) ≡ true → IsDd (commit f value n s)
    unfolding commit
    negative-IsDd not_up down = elim a.bin [
      | inl (is_zero, _) ↦ cc ((laws.eq_not_lt value (of_nat 0) is_zero).0)
      | inr (_, room) ↦
          let room' : HasRoom s.negative (key f s (neg value)) n =
            rw (not_up, laws.abs_neg value down) at room in
          rw (not_up, down)
            (record {
              positives = v.positives;
              negatives =
                  bump-IsStore s.negative (key f s (neg value)) n a.positive room' v.negatives;
              zeros = v.zeros;
              counted = omega (arith, v.counted, total-bump (key f s (neg value)) n s.negative);
              fits = a.fits;
            })
    ]

    zero-IsDd :
        lt (of_nat 0) value ≡ false → lt value (of_nat 0) ≡ false → IsDd (commit f value n s)
    unfolding commit
    zero-IsDd not_up not_down = elim a.bin [
      | inr (nonzero, _) ↦
          cc (laws.lt_of_ne value (of_nat 0) a.finite.0 (laws.of_nat-not_nan 0) nonzero not_up)
      | inl (_, room) ↦
          rw (not_up, not_down)
            (record {
              positives = v.positives;
              negatives = v.negatives;
              zeros = room;
              counted = omega (arith, v.counted);
              fits = a.fits;
            })
    ]

    commit-IsDd : IsDd (commit f value n s)
    commit-IsDd = elim (Bool-cases (lt (of_nat 0) value)) [
      | inl up ↦ positive-IsDd up
      | inr not_up ↦ elim (Bool-cases (lt value (of_nat 0))) [
        | inl down ↦ negative-IsDd not_up down
        | inr not_down ↦ zero-IsDd not_up not_down
      ]
    ]

  -- `add` keeps the invariant of a valid sketch for every value and count, NaN and the infinities
  -- included, whether it ignores the value, raises or counts it.
  pub add-IsDd : (value : F) (count : Count) (s : Dd F) → IsDd s → IsDd (add f value count s).1
  add-IsDd value count s v = elim (add-Outcome f value count s) [
    | inl (r, same) ↦ rw same v
    | inr (n, _, a, done) ↦ rw done (commit-IsDd value n s a v)
  ]
