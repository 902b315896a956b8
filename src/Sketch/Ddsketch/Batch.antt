-- ===== src/Sketch/Ddsketch/Batch.antt =====
-- `DDSketch.add_batch`: the values are gathered in temporary buckets, all checks are made, and
-- only then are the buckets added to the sketch.
use sketchlog.Prelude.{
  ℕ, suc, ◌+◌, Bool, false, ◌||◌, List, [], ◌∷◌, ltb, ◌==◌, if◌then◌else◌, length,
}
use sketchlog.Prelude.Int.{ℤ}
use sketchlog.Prelude.Key.{int_key}
use sketchlog.Prelude.Dict
use sketchlog.Prelude.Exec.{Result, ok, err, Exec, refuse_if, bind}
use sketchlog.Prelude.Float.{Float}
use sketchlog.Sketch.Count.{max_int64, max_uint64}
use sketchlog.Sketch.Bins.{Bins, bump, bump_all}
use sketchlog.Sketch.Ddsketch.{
  Dd, DdError, max_bins, key, is_inaccurate, too_small, bins_full, count_overflow, zero_overflow,
  bin_overflow,
}

-- The temporary buckets and counters.
pub record Batch (F : Type 0) : Type 0 where
  pub tmp_pos : Bins
  pub tmp_neg : Bins
  pub tmp_count : ℕ
  pub tmp_zeros : ℕ
  pub tmp_min : F
  pub tmp_max : F

-- `len(set(store).union(tmp))`, for two dictionaries.
unfoldable pub union_size : Bins → Bins → ℕ
union_size store [] = length store
union_size store ((idx, n) ∷ tmp) =
    let rest = union_size store tmp in if Dict.contains idx store then rest else suc rest

-- `any(store.get(idx, 0) > MAX_INT64 - count for idx, count in tmp.items())`
unfoldable pub any_over : Bins → Bins → Bool
any_over store [] = false
any_over store ((idx, n) ∷ tmp) = ltb max_int64 (Dict.get_or idx 0 store + n) || any_over store tmp

module _ (f : Float) where
  open f use {F, of_nat, lt, eq, neg, abs, is_nan, is_inf, inf}

  -- `sum(math.isfinite(value) for value in values)`, in `_PythonStreamLog.add_batch`.
  abbrev pub finite_count : List F → ℕ
  finite_count [] = 0
  finite_count (v ∷ values) =
      let rest = finite_count values in if is_nan v || is_inf v then rest else suc rest

  abbrev pub empty_batch : Batch F
  empty_batch = record {
    tmp_pos = [];
    tmp_neg = [];
    tmp_count = 0;
    tmp_zeros = 0;
    tmp_min = inf;
    tmp_max = neg inf;
  }

  -- One value counted, after its bucket.
  abbrev pub see : F → Batch F → Batch F
  see v b = record b {
    tmp_count = b.tmp_count + 1;
    tmp_min = if lt v b.tmp_min then v else b.tmp_min;
    tmp_max = if lt b.tmp_max v then v else b.tmp_max;
  }

  abbrev pub put_value : ℤ → F → Batch F → Batch F
  put_value idx v b =
      if lt (of_nat 0) v
      then record b { tmp_pos = bump idx 1 b.tmp_pos }
      else record b { tmp_neg = bump idx 1 b.tmp_neg }

  -- The body of the loop.
  unfoldable pub take_value : Dd F → F → Batch F → Result DdError (Batch F)
  take_value s v b =
      if is_nan v || is_inf v
      then ok b
      else if eq v (of_nat 0)
      then ok (see v (record b { tmp_zeros = b.tmp_zeros + 1 }))
      else refuse_if (is_inaccurate f s (abs v)) too_small
          (ok (see v (put_value (key f s (abs v)) v b)))

  unfoldable pub gather : Dd F → List F → Batch F → Result DdError (Batch F)
  gather s [] b = ok b
  gather s (v ∷ values) b = bind (take_value s v b) (gather s values)

  unfoldable pub commit_batch : Batch F → Dd F → Dd F
  commit_batch b s = record s {
    positive = bump_all b.tmp_pos s.positive;
    negative = bump_all b.tmp_neg s.negative;
    count = s.count + b.tmp_count;
    zero_count = s.zero_count + b.tmp_zeros;
    min = if lt b.tmp_min s.min then b.tmp_min else s.min;
    max = if lt s.max b.tmp_max then b.tmp_max else s.max;
  }

  -- The checks after the loop, in their order.
  unfoldable pub check_batch : Dd F → Batch F → Result DdError (Dd F)
  check_batch s b = refuse_if (ltb max_bins (union_size s.positive b.tmp_pos)) bins_full (
      refuse_if (ltb max_bins (union_size s.negative b.tmp_neg)) bins_full (
        refuse_if (ltb max_uint64 (s.count + b.tmp_count)) count_overflow (
          refuse_if (ltb max_int64 (s.zero_count + b.tmp_zeros)) zero_overflow (
            refuse_if (any_over s.positive b.tmp_pos) bin_overflow
              (refuse_if (any_over s.negative b.tmp_neg) bin_overflow (ok (commit_batch b s)))))))

  unfoldable pub close_batch : Dd F → Batch F → Result DdError (Dd F)
  close_batch s b = if b.tmp_count == 0 then ok s else check_batch s b

  abbrev pub finish_batch : Dd F → Result DdError (Dd F) → Result DdError (Unit {0}) × Dd F
  finish_batch s (err e) = (err e, s)
  finish_batch s (ok s') = (ok tt, s')

  unfoldable pub add_batch : List F → Exec DdError (Dd F) (Unit {0})
  add_batch values s = finish_batch s (bind (gather s values empty_batch) (close_batch s))
