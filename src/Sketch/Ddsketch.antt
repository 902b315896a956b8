-- ===== src/Sketch/Ddsketch.antt =====
-- core/ddsketch.py: the DDSketch over an abstract `float`. The proofs are in the modules below.
pub mod Outcome
pub mod Batch
pub mod Union
pub mod Gather
pub mod Valid
pub mod Summary
pub mod Extrema
pub mod Joins
pub mod Batched
pub mod Weight
pub mod Monotone
pub mod Greater
pub mod Quantile
pub mod Sorted
pub mod Rank
pub mod Places
pub mod Walk
pub mod Ranked
pub mod Seen
use sketchlog.Prelude.{
  ℕ, zero, suc, ◌+◌, ◌-◌, ◌*◌, ◌≡◌, Bool, true, false, not, ◌&&◌, ◌||◌, Option, none, some, List,
  [], ◌∷◌, ltb, leb, ◌==◌, if◌then◌else◌, length,
}
use sketchlog.Prelude.Int.{ℤ, pos, negsuc, ltb_ℤ}
use sketchlog.Prelude.Key.{int_key}
use sketchlog.Prelude.Dict
use sketchlog.Prelude.Exec.{Result, ok, err, Exec, raise_if}
use sketchlog.Prelude.Float.{Float}
use sketchlog.Sketch.Count.{Count, int, other, max_int64, max_uint64, is_positive, amount}
use sketchlog.Sketch.Bins.{Bins, bump, bump_all, total}

abbrev pub max_bins : ℕ
max_bins = 1024

pub data DdError : Type 0 where
  bad_accuracy count_type count_capacity count_overflow too_small bins_full : DdError
  bin_overflow zero_overflow bad_quantile : DdError

pub record Dd (F : Type 0) : Type 0 where
  pub alpha : F
  pub gamma : F
  pub multiplier : F
  pub positive : Bins
  pub negative : Bins
  pub zero_count : ℕ
  pub count : ℕ
  pub min : F
  pub max : F

-- `_store_can_fit`
unfoldable pub store_can_fit : Bins → ℤ → Bool
store_can_fit store index = Dict.contains index store || ltb (length store) max_bins

-- The sum over the buckets whose index passes a test, in `count_greater_than`.
unfoldable pub count_where : (ℤ → Bool) → Bins → ℕ
count_where test [] = 0
count_where test ((k, n) ∷ store) =
    let rest = count_where test store in if test k then n + rest else rest

module _ (f : Float) where
  open f use {
    F, of_nat, lt, le, eq, add as fadd, sub, mul, div, neg, abs, is_nan, is_inf, inf, log, ceil,
    pow, tiny, largest, millionth,
  }

  -- The attributes that `__init__` sets.
  unfoldable pub fresh : F → Dd F
  fresh accuracy =
      let gamma = div (fadd (of_nat 1) accuracy) (sub (of_nat 1) accuracy) in
      record {
        alpha = accuracy;
        gamma = gamma;
        multiplier = div (of_nat 1) (log gamma);
        positive = [];
        negative = [];
        zero_count = 0;
        count = 0;
        min = inf;
        max = neg inf;
      }

  -- `__init__`; `1e-6 <= nan` is false, so NaN is refused too.
  unfoldable pub init : F → Result DdError (Dd F)
  init accuracy =
      if le millionth accuracy && lt accuracy (of_nat 1)
      then ok (fresh accuracy)
      else err bad_accuracy

  -- `_key`
  unfoldable pub key : Dd F → F → ℤ
  key s value = ceil (mul (log value) s.multiplier)

  -- `_bucket_value`, with the handler of OverflowError
  unfoldable pub bucket_value : Dd F → ℤ → F
  bucket_value s index = elim (pow s.gamma index) [
    | none ↦ largest
    | some power ↦
        let val = mul (div (of_nat 2) (fadd (of_nat 1) s.gamma)) power in
        if eq val (of_nat 0) then tiny else val
  ]

  -- `abs(rep - abs_v) / abs_v > self._alpha`
  unfoldable pub is_inaccurate : Dd F → F → Bool
  is_inaccurate s abs_v = lt s.alpha (div (abs (sub (bucket_value s (key s abs_v)) abs_v)) abs_v)

  abbrev pub store_of : Dd F → F → Bins
  store_of s value = if lt (of_nat 0) value then s.positive else s.negative

  -- The part of `add` that changes the sketch.
  unfoldable pub commit : F → ℕ → Dd F → Dd F
  commit value n s =
      let seen = record s {
        count = s.count + n;
        min = if lt value s.min then value else s.min;
        max = if lt s.max value then value else s.max;
      } in
      if lt (of_nat 0) value
      then record seen { positive = bump (key s value) n s.positive }
      else if lt value (of_nat 0)
      then record seen { negative = bump (key s (neg value)) n s.negative }
      else record seen { zero_count = s.zero_count + n }

  abbrev pub finish : F → ℕ → Exec DdError (Dd F) (Unit {0})
  finish value n s = (ok tt, commit value n s)

  -- The checks of `add` for the bucket of a value that is not zero, one function for each.
  unfoldable pub check_bin : F → ℕ → Exec DdError (Dd F) (Unit {0})
  check_bin value n s =
      raise_if (ltb (max_int64 - n) (Dict.get_or (key s (abs value)) 0 (store_of s value)))
        bin_overflow (finish value n) s

  unfoldable pub check_fit : F → ℕ → Exec DdError (Dd F) (Unit {0})
  check_fit value n s =
      raise_if (not (store_can_fit (store_of s value) (key s (abs value)))) bins_full
        (check_bin value n) s

  unfoldable pub check_accuracy : F → ℕ → Exec DdError (Dd F) (Unit {0})
  check_accuracy value n s = raise_if (is_inaccurate s (abs value)) too_small (check_fit value n) s

  -- The check for a zero.
  unfoldable pub check_zeros : F → ℕ → Exec DdError (Dd F) (Unit {0})
  check_zeros value n s =
      raise_if (ltb (max_int64 - n) s.zero_count) zero_overflow (finish value n) s

  unfoldable pub check_value : F → ℕ → Exec DdError (Dd F) (Unit {0})
  check_value value n s =
      if not (eq value (of_nat 0)) then check_accuracy value n s else check_zeros value n s

  unfoldable pub check_total : F → ℕ → Exec DdError (Dd F) (Unit {0})
  check_total value n s =
      raise_if (ltb (max_uint64 - n) s.count) count_overflow (check_value value n) s

  unfoldable pub add : F → Count → Exec DdError (Dd F) (Unit {0})
  add value other s = if is_nan value || is_inf value then (ok tt, s) else (err count_type, s)
  add value (int n) s =
      if is_nan value || is_inf value
      then (ok tt, s)
      else if not (is_positive n)
      then (ok tt, s)
      else raise_if (ltb max_int64 (amount n)) count_capacity (check_total value (amount n)) s

  -- The getters of `_min` and `_max`.
  unfoldable pub minimum : Dd F → F
  minimum s = if ltb 0 s.count then s.min else of_nat 0

  unfoldable pub maximum : Dd F → F
  maximum s = if ltb 0 s.count then s.max else of_nat 0

  unfoldable pub memory_bytes : Dd F → ℕ
  memory_bytes s = 64 + (length s.positive + length s.negative) * 24

  unfoldable pub reset : Dd F → Dd F
  reset s = record s {
    positive = [];
    negative = [];
    zero_count = 0;
    count = 0;
    min = inf;
    max = neg inf;
  }

  -- `count_greater_than`
  unfoldable pub count_greater_than : Dd F → F → ℕ
  count_greater_than s threshold =
      if s.count == 0
      then 0
      else if le s.max threshold
      then 0
      else if lt threshold s.min
      then s.count
      else if lt threshold (of_nat 0)
      then count_where (λ k. not (ltb_ℤ (key s (neg threshold)) k)) s.negative
        + s.zero_count
        + total s.positive
      else if eq threshold (of_nat 0)
      then total s.positive
      else count_where (λ k. not (ltb_ℤ k (key s threshold))) s.positive
