-- ===== src/Log/State/Written.antt =====
-- What `to_dict` writes is read back, part by part.
use sketchlog.Log.State.{extremum, float, null}
use sketchlog.Prelude.{zero}
use sketchlog.Sketch.Ddsketch.Union.{absent}
use mathlib.Core.List.{append-nil, append_assoc}
use sketchlog.Prelude.{
  ℕ, zero, suc, ◌≤◌, ◌<◌, ◌≡◌, refl, ap, inl, inr, true, false, ◌||◌, List, [], ◌∷◌, ◌++◌, arith,
  ◌==◌, length, sum, All, Bool-cases,
}
use sketchlog.Prelude.Int.{ℤ, pos, ltb_ℤ}
use sketchlog.Prelude.Key.{int_key}
use sketchlog.Prelude.Key.{◌==◌ as ◌=k=◌}
use sketchlog.Prelude.Dict
use sketchlog.Prelude.Dict.{IsDict}
use sketchlog.Prelude.Exec.{ok}
use sketchlog.Sketch.Count.{max_int64}
use sketchlog.Sketch.Bins.{AllKeys, Bins, IsCounts}
use sketchlog.Sketch.Cms.Bump.{IsRow}
use sketchlog.Log.State.{int, store_fields, int_list, row_list}
use sketchlog.Log.State.Read.{
  StateError, bounded, at_least_one, bounded_list, read_key, validate_buckets, size, read_rows,
  bad_cell,
}

-- A cell is at most the sum of its row.
All-le-sum : (ns : List ℕ) (limit : ℕ) → sum ns ≤ limit → All (λ n. n ≤ limit) ns
All-le-sum [] limit h = tt
All-le-sum (n ∷ ns) limit h = (omega (arith, h), All-le-sum ns limit (omega (arith, h)))

put-absent :
    (k : ℤ) (n : ℕ) (res : Bins)
    → Dict.contains k res ≡ false
    → Dict.put k n res ≡ res ++ (k, n) ∷ []
unfolding Dict.put Dict.contains
put-absent k n [] h = refl
put-absent k n ((j, m) ∷ res) h = elim (Bool-cases (j =k= k)) [
  | inl same ↦ cc (rw same at h)
  | inr other ↦ rw other (ap (λ r. (j, m) ∷ r) (put-absent k n res (rw other at h)))
]

AllKeys-absent :
    (k : ℤ) (n : ℕ) (store res : Bins)
    → Dict.contains k store ≡ false
    → AllKeys (λ j. Dict.contains j res ≡ false) store
    → AllKeys (λ j. Dict.contains j (Dict.put k n res) ≡ false) store
AllKeys-absent k n [] res h a = tt
AllKeys-absent k n ((j, m) ∷ store) res h a =
    let (other, rest) = absent k j m store h in
    (rw (Dict.contains-put k j n res, other) (a.0), AllKeys-absent k n store res rest a.1)

pub no_keys : (store : Bins) → AllKeys (λ k. Dict.contains {V = ℕ} k [] ≡ false) store
unfolding Dict.contains
no_keys [] = tt
no_keys ((k, n) ∷ store) = (refl, no_keys store)

pub extremum-used : {F : Type 0} (n : ℕ) (x : F) → 0 < n → extremum n x ≡ float x
extremum-used zero x h = absurd (omega arith)
extremum-used (suc n) x h = refl

pub extremum-empty : {F : Type 0} (n : ℕ) (x : F) → n ≡ 0 → extremum n x ≡ null
extremum-empty zero x h = refl
extremum-empty (suc n) x h = absurd (omega arith)

module _ (F : Type 0) where
  pub bounded-pos :
      (limit n : ℕ) (e : StateError) → n ≤ limit → bounded {F = F} limit e (int (pos n)) ≡ ok n
  unfolding bounded
  bounded-pos limit n e h = ground arith

  pub at_least_one-pos :
      (n : ℕ) (e : StateError) → 0 < n → at_least_one {F = F} e (int (pos n)) ≡ ok n
  unfolding at_least_one
  at_least_one-pos zero e h = absurd (omega arith)
  at_least_one-pos (suc n) e h = refl

  pub size-int_list : (ns : List ℕ) → size {F = F} (int_list ns) ≡ length ns
  size-int_list [] = refl
  size-int_list (n ∷ ns) = ap suc (size-int_list ns)

  pub size-row_list : (rows : List (List ℕ)) → size {F = F} (row_list rows) ≡ length rows
  size-row_list [] = refl
  size-row_list (row ∷ rows) = ap suc (size-row_list rows)

  pub bounded_list-int_list :
      (limit : ℕ) (e : StateError) (ns : List ℕ)
      → All (λ n. n ≤ limit) ns
      → bounded_list {F = F} limit e (int_list ns) ≡ ok ns
  unfolding bounded_list
  bounded_list-int_list limit e [] h = refl
  bounded_list-int_list limit e (n ∷ ns) h =
      rw (bounded-pos limit n e h.0, bounded_list-int_list limit e ns h.1) refl

  pub read_rows-row_list :
      (width total : ℕ) (rows : List (List ℕ))
      → total ≤ max_int64
      → All (IsRow width total) rows
      → read_rows {F = F} width total (row_list rows) ≡ ok rows
  unfolding read_rows
  read_rows-row_list width total [] fits h = refl
  read_rows-row_list width total (row ∷ rows) fits h =
      let wide : (size {F = F} (int_list row) == width) ≡ true =
        rw (size-int_list row, h.0.0) (ground arith) in
      let sums : (sum row == total) ≡ true = rw (h.0.1) (ground arith) in
      rw
        (
          wide,
          bounded_list-int_list max_int64 bad_cell row
              (All-le-sum row max_int64 (omega (arith, h.0.1, fits))),
          sums,
          read_rows-row_list width total rows fits h.1,
        )
        refl

  -- The buckets of a store, each in its range, are read back behind those that were read.
  pub validate_buckets-store_fields :
      (low high : ℤ) (store res : Bins)
      → IsDict store
      → IsCounts max_int64 store
      → AllKeys (λ k. (ltb_ℤ k low || ltb_ℤ high k) ≡ false) store
      → AllKeys (λ k. Dict.contains k res ≡ false) store
      → validate_buckets {F = F} low high (store_fields store) res ≡ ok (res ++ store)
  unfolding validate_buckets read_key
  validate_buckets-store_fields low high [] res d c r a = rw append-nil refl
  validate_buckets-store_fields low high ((k, n) ∷ store) res d c r a =
      let positive : (n == 0) ≡ false = ground (arith, c.0.0) in
      rw
        (
          a.0,
          bounded-pos max_int64 n StateError.bad_bucket_count c.0.1,
          positive,
          r.0,
          validate_buckets-store_fields low high store (Dict.put k n res) d.1 c.1 r.1
              (AllKeys-absent k n store res d.0 a.1),
          put-absent k n res a.0,
          append_assoc,
        )
        refl
