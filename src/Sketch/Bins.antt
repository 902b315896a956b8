-- ===== src/Sketch/Bins.antt =====
-- The buckets of a DDSketch: a dictionary from the index of a bucket to its count.
use sketchlog.Prelude.{
  ℕ, suc, ◌+◌, ◌≤◌, ◌<◌, ◌≡◌, ◌∙◌, ap, [], ◌∷◌, arith, length, if◌then◌else◌, Bool-cases, inl, inr,
}
use sketchlog.Prelude.Int.{ℤ}
use sketchlog.Prelude.Key.{◌==◌, int_key}
use sketchlog.Prelude.Dict
use sketchlog.Prelude.Dict.{Dict, IsDict}

abbrev pub Bins : Type 0
Bins = Dict ℤ ℕ

-- `store[idx] = store.get(idx, 0) + count`
unfoldable pub bump : ℤ → ℕ → Bins → Bins
bump idx n store = Dict.put idx (Dict.get_or idx 0 store + n) store

-- `sum(store.values())`
abbrev pub total : Bins → ℕ
total [] = 0
total ((k, n) ∷ store) = n + total store

-- `for idx, count in other.items(): store[idx] = store.get(idx, 0) + count`
unfoldable pub bump_all : Bins → Bins → Bins
bump_all [] store = store
bump_all ((idx, n) ∷ other) store = bump_all other (bump idx n store)

pub bump-cons :
    (idx j : ℤ) (n m : ℕ) (store : Bins)
    → bump idx n ((j, m) ∷ store)
      ≡ (if j == idx then (j, m + n) ∷ store else (j, m) ∷ bump idx n store)
unfolding bump Dict.put Dict.get_or
bump-cons idx j n m store = ground arith

pub total-bump : (idx : ℤ) (n : ℕ) (store : Bins) → total (bump idx n store) ≡ total store + n
total-bump idx n [] = unfold bump Dict.put Dict.get_or in omega arith
total-bump idx n ((j, m) ∷ store) = elim (Bool-cases (j == idx)) [
  | inl same ↦ rw (bump-cons idx j n m store, same) (omega arith)
  | inr other ↦ rw (bump-cons idx j n m store, other) (omega (arith, total-bump idx n store))
]

pub get_or-le-total : (idx : ℤ) (store : Bins) → Dict.get_or idx 0 store ≤ total store
unfolding Dict.get_or
get_or-le-total idx [] = omega arith
get_or-le-total idx ((j, m) ∷ store) = ground (arith, get_or-le-total idx store)

-- Each count is positive and fits an int64; `limit` is that bound.
abbrev pub IsCounts : ℕ → Bins → Type 0
IsCounts limit [] = Unit
IsCounts limit ((k, n) ∷ store) = ((0 < n) × (n ≤ limit)) × IsCounts limit store

pub bump-IsCounts :
    (limit : ℕ) (idx : ℤ) (n : ℕ) (store : Bins)
    → 0 < n
    → Dict.get_or idx 0 store + n ≤ limit
    → IsCounts limit store
    → IsCounts limit (bump idx n store)
bump-IsCounts limit idx n [] p q h = unfold bump Dict.put Dict.get_or in ((omega arith, q), tt)
bump-IsCounts limit idx n ((j, m) ∷ store) p q h = elim (Bool-cases (j == idx)) [
  | inl same ↦
      rw (bump-cons idx j n m store, same) ((omega arith, unfold Dict.get_or in ground arith), h.1)
  | inr other ↦
      rw (bump-cons idx j n m store, other)
        (h.0, bump-IsCounts limit idx n store p (unfold Dict.get_or in ground arith) h.1)
]

pub bump-IsDict : (idx : ℤ) (n : ℕ) (store : Bins) → IsDict store → IsDict (bump idx n store)
unfolding bump
bump-IsDict idx n store h = Dict.put-IsDict idx _ store h

pub length-bump :
    (idx : ℤ) (n : ℕ) (store : Bins)
    → length (bump idx n store)
      ≡ (if Dict.contains idx store then length store else suc (length store))
unfolding bump
length-bump idx n store = Dict.length-put idx _ store

pub get_or-bump :
    (idx j : ℤ) (n : ℕ) (store : Bins)
    → Dict.get_or j 0 (bump idx n store)
      ≡ (if idx == j then Dict.get_or j 0 store + n else Dict.get_or j 0 store)
unfolding bump
get_or-bump idx j n store = elim (Bool-cases (idx == j)) [
  | inl same ↦
      let e = (int_key.beq_iff idx j).0 same in
      Dict.get_or-put idx j _ 0 store
      ∙ ap (λ k. if idx == j then Dict.get_or k 0 store + n else Dict.get_or j 0 store) e
  | inr other ↦ Dict.get_or-put idx j _ 0 store ∙ rw other
]

-- The keys of a store.
abbrev pub AllKeys : (ℤ → Type 0) → Bins → Type 0
AllKeys P [] = Unit
AllKeys P ((k, n) ∷ store) = P k × AllKeys P store
