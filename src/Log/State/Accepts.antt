-- ===== src/Log/State/Accepts.antt =====
-- What the readers of `from_dict` establish of the values that they accept.
use sketchlog.Prelude.{
  ℕ, zero, suc, ◌≤◌, ◌<◌, ◌≡◌, refl, inl, inr, not, ◌||◌, List, [], ◌∷◌, arith, ltb, ◌==◌, length,
  sum, All, Bool-cases,
}
use sketchlog.Prelude.Int.{ℤ, pos, negsuc, ltb_ℤ}
use sketchlog.Prelude.Key.{int_key}
use sketchlog.Prelude.Key.{◌==◌ as ◌=k=◌}
use sketchlog.Prelude.Dict
use sketchlog.Prelude.Dict.{IsDict}
use sketchlog.Prelude.Exec.{
  Result, ok, err, Ensures, Ensures-refuse_if, Ensures-unless, Ensures-bind, Ensures-refuse_first,
}
use sketchlog.Sketch.Count.{max_int64}
use sketchlog.Sketch.Bins.{Bins, IsCounts, total}
use sketchlog.Sketch.Cms.Bump.{IsRow}
use sketchlog.Log.State.{
  Value, null, boolean, int, float, text, array, dict, Values, nil, cons, Fields, end, field,
}
use sketchlog.Log.State.Read.{
  StateError, duplicate_key, bad_bucket_count, bucket_range, bad_table, bad_cell, bad_row_sum,
  bounded, at_least_one, bounded_list, read_key, validate_buckets, size, read_rows,
}

-- Nothing is asked of a value that is only passed on.
abbrev pub Anything : {A : Type 0} → A → Type 0
Anything a = Unit

pub anything : {E A : Type 0} (r : Result E A) → Ensures Anything r
anything (ok a) = tt
anything (err e) = tt

pub bounded-Ensures :
    {F : Type 0} (limit : ℕ) (e : StateError) (v : Value F)
    → Ensures (λ n. n ≤ limit) (bounded limit e v)
unfolding bounded
bounded-Ensures limit e (int (pos n)) =
    Ensures-refuse_if (λ n. n ≤ limit) (ltb limit n) e (ok n) λ h. ground arith
bounded-Ensures limit e (int (negsuc n)) = tt
bounded-Ensures limit e null = tt
bounded-Ensures limit e (boolean b) = tt
bounded-Ensures limit e (float x) = tt
bounded-Ensures limit e (text s) = tt
bounded-Ensures limit e (array vs) = tt
bounded-Ensures limit e (dict d) = tt

pub at_least_one-Ensures :
    {F : Type 0} (e : StateError) (v : Value F) → Ensures (λ n. 0 < n) (at_least_one e v)
unfolding at_least_one
at_least_one-Ensures e (int (pos (suc n))) = omega arith
at_least_one-Ensures e (int (pos zero)) = tt
at_least_one-Ensures e (int (negsuc n)) = tt
at_least_one-Ensures e null = tt
at_least_one-Ensures e (boolean b) = tt
at_least_one-Ensures e (float x) = tt
at_least_one-Ensures e (text s) = tt
at_least_one-Ensures e (array vs) = tt
at_least_one-Ensures e (dict d) = tt

pub bounded_list-Ensures :
    {F : Type 0} (limit : ℕ) (e : StateError) (vs : Values F)
    → Ensures (λ ns. All (λ n. n ≤ limit) ns × (length ns ≡ size vs)) (bounded_list limit e vs)
unfolding bounded_list
bounded_list-Ensures limit e nil = (tt, refl)
bounded_list-Ensures limit e (cons v vs) =
    Ensures-bind (λ n. n ≤ limit) (λ ns. All (λ n. n ≤ limit) ns × (length ns ≡ suc (size vs)))
      (bounded limit e v) _ (bounded-Ensures limit e v)
      λ n fits.
        Ensures-bind (λ ns. All (λ n. n ≤ limit) ns × (length ns ≡ size vs))
          (λ ns. All (λ n. n ≤ limit) ns × (length ns ≡ suc (size vs))) (bounded_list limit e vs) _
          (bounded_list-Ensures limit e vs) λ ns h. ((fits, h.0), omega (arith, h.1))

pub put-IsCounts :
    (limit : ℕ) (k : ℤ) (n : ℕ) (store : Bins)
    → 0 < n
    → n ≤ limit
    → IsCounts limit store
    → IsCounts limit (Dict.put k n store)
unfolding Dict.put
put-IsCounts limit k n [] p q h = ((p, q), tt)
put-IsCounts limit k n ((j, m) ∷ store) p q h = elim (Bool-cases (j =k= k)) [
  | inl same ↦ rw same ((p, q), h.1)
  | inr other ↦ rw other (h.0, put-IsCounts limit k n store p q h.1)
]

abbrev pub IsBuckets : Bins → Type 0
IsBuckets store = IsDict store × IsCounts max_int64 store

pub validate_buckets-IsBuckets :
    {F : Type 0} (low high : ℤ) (d : Fields F) (res : Bins)
    → IsBuckets res
    → Ensures IsBuckets (validate_buckets low high d res)
unfolding validate_buckets
validate_buckets-IsBuckets low high end res h = h
validate_buckets-IsBuckets low high (field k v d) res h =
    Ensures-bind Anything IsBuckets (read_key k) _ (anything (read_key k)) λ ik _.
      Ensures-unless IsBuckets (Dict.contains ik res) duplicate_key _ (
        Ensures-bind (λ n. n ≤ max_int64) IsBuckets (bounded max_int64 bad_bucket_count v) _
          (bounded-Ensures max_int64 bad_bucket_count v)
          λ n fits.
            Ensures-refuse_first IsBuckets
              ((n == 0, bad_bucket_count) ∷ (ltb_ℤ ik low || ltb_ℤ high ik, bucket_range) ∷ [])
              (validate_buckets low high d (Dict.put ik n res))
              λ passed. validate_buckets-IsBuckets low high d (Dict.put ik n res) (
                Dict.put-IsDict ik n res h.0,
                put-IsCounts max_int64 ik n res (ground (arith, passed)) fits h.1,
              ))

pub read_rows-Ensures :
    {F : Type 0} (width total : ℕ) (rows : Values F)
    → Ensures
        (λ table. (length table ≡ size rows) × All (IsRow width total) table)
        (read_rows width total rows)
unfolding read_rows
read_rows-Ensures width total nil = (refl, tt)
read_rows-Ensures width total (cons (array vs) rows) =
    let P : List (List ℕ) → Type 0 =
      λ table. (length table ≡ suc (size rows)) × All (IsRow width total) table in
    Ensures-refuse_if P (not (size vs == width)) bad_table _ λ wide.
      Ensures-bind (λ ns. All (λ n. n ≤ max_int64) ns × (length ns ≡ size vs)) P
        (bounded_list max_int64 bad_cell vs) _ (bounded_list-Ensures max_int64 bad_cell vs)
        λ row cells. Ensures-refuse_if P (not (sum row == total)) bad_row_sum _ λ sums.
          Ensures-bind (λ table. (length table ≡ size rows) × All (IsRow width total) table) P
            (read_rows width total rows) _ (read_rows-Ensures width total rows)
            λ rest h.
              (omega (arith, h.0), ((ground (arith, cells.1, wide), ground (arith, sums)), h.1))
read_rows-Ensures width total (cons null rows) = tt
read_rows-Ensures width total (cons (boolean b) rows) = tt
read_rows-Ensures width total (cons (int n) rows) = tt
read_rows-Ensures width total (cons (float x) rows) = tt
read_rows-Ensures width total (cons (text s) rows) = tt
read_rows-Ensures width total (cons (dict d) rows) = tt
