-- ===== src/Log/State/Read.antt =====
-- facade.py: the values that `from_dict` reads, with the checks of each.
use sketchlog.Prelude.{
  ℕ, suc, Bool, true, false, not, ◌||◌, none, some, List, [], ◌∷◌, String, ltb, ◌==◌, if◌then◌else◌,
  sum,
}
use sketchlog.Prelude.Int.{ℤ, pos, ltb_ℤ}
use sketchlog.Prelude.Key.{int_key, int_beq}
use sketchlog.Prelude.Dict
use sketchlog.Prelude.Exec.{Result, ok, err, refuse_if, refuse_first, bind}
use sketchlog.Sketch.Count.{max_int64}
use sketchlog.Sketch.Bins.{Bins, total}
use sketchlog.Log.{LogError}
use sketchlog.Log.State.{
  Name, number, word, Value, boolean, int, array, dict, Values, nil, cons, Fields, end, field,
  lookup, canonical_int,
}

-- What was wrong, under the ValueError.
pub data StateError : Type 0 where
  no_dictionary missing_key bad_version bad_total bad_flag bad_alpha no_spread : StateError
  bad_zero_count bad_count bad_buckets bad_key duplicate_key bad_bucket_count : StateError
  bucket_range too_many_buckets bad_sum no_extremum bad_extremum infinite_extremum : StateError
  swapped_extrema contradicts_positive contradicts_negative contradicts_zeros : StateError
  stray_extremum bad_precision bad_registers bad_width bad_depth too_many_cells : StateError
  bad_events_total bad_table bad_cell bad_row_sum inconsistent_total : StateError
  refused : LogError → StateError

-- `type(x) is int and 0 <= x <= limit`
unfoldable pub bounded : {F : Type 0} → ℕ → StateError → Value F → Result StateError ℕ
bounded limit e (int (pos n)) = refuse_if (ltb limit n) e (ok n)
bounded limit e _ = err e

-- `type(x) is int and x >= 1`
unfoldable pub at_least_one : {F : Type 0} → StateError → Value F → Result StateError ℕ
at_least_one e (int (pos (suc n))) = ok (suc n)
at_least_one e _ = err e

-- The integers of a list, each at most a limit.
unfoldable pub bounded_list : {F : Type 0} → ℕ → StateError → Values F → Result StateError (List ℕ)
bounded_list limit e nil = ok []
bounded_list limit e (cons v vs) =
    bind (bounded limit e v) (λ n. bind (bounded_list limit e vs) (λ ns. ok (n ∷ ns)))

unfoldable pub read_key : Name → Result StateError ℤ
read_key (number k) = ok k
read_key (word s) = elim (canonical_int s) [ none ↦ err bad_key | some k ↦ ok k ]

-- `max(store.keys())` and `min(store.keys())` of a store that is not empty
unfoldable pub greatest : ℤ → Bins → ℤ
greatest m [] = m
greatest m ((k, n) ∷ store) = greatest (if ltb_ℤ m k then k else m) store

unfoldable pub smallest : ℤ → Bins → ℤ
smallest m [] = m
smallest m ((k, n) ∷ store) = smallest (if ltb_ℤ k m then k else m) store

abbrev pub max_key : Bins → ℤ
max_key [] = pos 0
max_key ((k, n) ∷ store) = greatest k store

abbrev pub min_key : Bins → ℤ
min_key [] = pos 0
min_key ((k, n) ∷ store) = smallest k store

abbrev pub is_used : Bins → Bool
is_used [] = false
is_used (b ∷ store) = true

module _ {F : Type 0} where
  -- `d[name]`, `d.get(name)` and `d.get(name, default)`
  abbrev pub item : String → Fields F → Result StateError (Value F)
  item name d = elim (lookup name d) [ none ↦ err missing_key | some v ↦ ok v ]

  abbrev pub item_or : Value F → String → Fields F → Value F
  item_or v name d = elim (lookup name d) [ none ↦ v | some w ↦ w ]

  -- The `isinstance` checks.
  abbrev pub as_dict : StateError → Value F → Result StateError (Fields F)
  as_dict e (dict d) = ok d
  as_dict e _ = err e

  abbrev pub as_list : StateError → Value F → Result StateError (Values F)
  as_list e (array vs) = ok vs
  as_list e _ = err e

  abbrev pub as_bool : Value F → Result StateError Bool
  as_bool (boolean b) = ok b
  as_bool _ = err bad_flag

  -- `type(version) is not int or version != 1`
  abbrev pub is_version_1 : Value F → Bool
  is_version_1 (int k) = int_beq k (pos 1)
  is_version_1 _ = false

  -- `validate_buckets`, whose dictionary `res` grows.
  unfoldable pub validate_buckets : (low high : ℤ) → Fields F → Bins → Result StateError Bins
  validate_buckets low high end res = ok res
  validate_buckets low high (field k v d) res = bind (read_key k) (λ ik.
      refuse_if (Dict.contains ik res) duplicate_key (
        bind (bounded max_int64 bad_bucket_count v) (λ n.
          refuse_first
            ((n == 0, bad_bucket_count) ∷ (ltb_ℤ ik low || ltb_ℤ high ik, bucket_range) ∷ [])
            (validate_buckets low high d (Dict.put ik n res)))))

  -- `len` of a list
  abbrev pub size : Values F → ℕ
  size nil = 0
  size (cons v vs) = suc (size vs)

  -- The table: each row is a list of `width` cells that add up to the total.
  unfoldable pub read_rows : (width total : ℕ) → Values F → Result StateError (List (List ℕ))
  read_rows width total nil = ok []
  read_rows width total (cons (array vs) rows) = refuse_if (not (size vs == width)) bad_table (
      bind (bounded_list max_int64 bad_cell vs) (λ row.
        refuse_if (not (sum row == total)) bad_row_sum
          (bind (read_rows width total rows) (λ rest. ok (row ∷ rest)))))
  read_rows width total (cons _ rows) = err bad_table
