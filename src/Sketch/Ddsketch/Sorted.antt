-- ===== src/Sketch/Ddsketch/Sorted.antt =====
-- The sorted items of a store are its items, in the strict order of their keys.
use sketchlog.Prelude.{
  ℕ, ◌+◌, ◌≡◌, refl, inl, inr, Bool, true, false, [], ◌∷◌, arith, Bool-cases, All,
}
use sketchlog.Prelude.Int.{ℤ, ltb_ℤ, eq_of_parts}
use sketchlog.Prelude.Key.{int_key, ◌==◌, beq_refl}
use sketchlog.Prelude.Dict
use sketchlog.Prelude.Dict.{IsDict}
use sketchlog.Sketch.Bins.{Bins, total}
use sketchlog.Sketch.Ddsketch.Quantile.{insert_item, sorted_items, ascending, descending}

insert_item-All :
    (P : ℤ × ℕ → Type 0) (before : ℤ → ℤ → Bool) (k : ℤ) (n : ℕ) (items : Bins)
    → P (k, n)
    → All P items
    → All P (insert_item before k n items)
unfolding insert_item
insert_item-All P before k n [] p h = (p, tt)
insert_item-All P before k n ((j, m) ∷ items) p h = elim (Bool-cases (before j k)) [
  | inl first ↦ rw first (h.0, insert_item-All P before k n items p h.1)
  | inr other ↦ rw other (p, h)
]

pub sorted_items-All :
    (P : ℤ × ℕ → Type 0) (before : ℤ → ℤ → Bool) (store : Bins)
    → All P store
    → All P (sorted_items before store)
unfolding sorted_items
sorted_items-All P before [] h = tt
sorted_items-All P before ((k, n) ∷ store) h =
    insert_item-All P before k n (sorted_items before store) h.0
      (sorted_items-All P before store h.1)

total-insert_item :
    (before : ℤ → ℤ → Bool) (k : ℤ) (n : ℕ) (items : Bins)
    → total (insert_item before k n items) ≡ n + total items
unfolding insert_item
total-insert_item before k n [] = refl
total-insert_item before k n ((j, m) ∷ items) = ground (arith, total-insert_item before k n items)

pub total-sorted_items :
    (before : ℤ → ℤ → Bool) (store : Bins) → total (sorted_items before store) ≡ total store
unfolding sorted_items
total-sorted_items before [] = refl
total-sorted_items before ((k, n) ∷ store) = omega (
  arith,
  total-insert_item before k n (sorted_items before store),
  total-sorted_items before store,
)

-- A strict order of the keys.
pub record IsStrict (before : ℤ → ℤ → Bool) : Type 0 where
  pub total : (j k : ℤ) → (j == k) ≡ false → before j k ≡ false → before k j ≡ true
  pub trans : (i j k : ℤ) → before i j ≡ true → before j k ≡ true → before i k ≡ true

pub ascending-IsStrict : IsStrict ascending
unfolding ltb_ℤ
ascending-IsStrict = record {
  total = λ j k ne h. ground (arith, eq_of_parts j k, int_key.beq_iff j k);
  trans = λ i j k g h. ground arith;
}

pub descending-IsStrict : IsStrict descending
unfolding ltb_ℤ
descending-IsStrict = record {
  total = λ j k ne h. ground (arith, eq_of_parts j k, int_key.beq_iff j k);
  trans = λ i j k g h. ground arith;
}

-- Each key comes before all the later ones.
abbrev pub IsSorted : (ℤ → ℤ → Bool) → Bins → Type 0
IsSorted before [] = Unit
IsSorted before ((k, n) ∷ items) =
    All (λ (i : ℤ × ℕ). before k i.0 ≡ true) items × IsSorted before items

All-later :
    (P Q : ℤ × ℕ → Type 0) (items : Bins) → ((i : ℤ × ℕ) → P i → Q i) → All P items → All Q items
All-later P Q [] g h = tt
All-later P Q (i ∷ items) g h = (g i h.0, All-later P Q items g h.1)

insert_item-IsSorted :
    (before : ℤ → ℤ → Bool) (k : ℤ) (n : ℕ) (items : Bins)
    → IsStrict before
    → All (λ (i : ℤ × ℕ). (i.0 == k) ≡ false) items
    → IsSorted before items
    → IsSorted before (insert_item before k n items)
unfolding insert_item
insert_item-IsSorted before k n [] o ne h = (tt, tt)
insert_item-IsSorted before k n ((j, m) ∷ items) o ne h = elim (Bool-cases (before j k)) [
  | inl first ↦ rw first (
    insert_item-All (λ i. before j i.0 ≡ true) before k n items first h.0,
    insert_item-IsSorted before k n items o ne.1 h.1,
  )
  | inr other ↦
      let up = o.total j k ne.0 other in
      rw other ((up, All-later _ (λ i. before k i.0 ≡ true) items (λ i. o.trans k j i.0 up) h.0), h)
]

absent-All :
    (k : ℤ) (store : Bins)
    → Dict.contains k store ≡ false
    → All (λ (i : ℤ × ℕ). (i.0 == k) ≡ false) store
unfolding Dict.contains
absent-All k [] h = tt
absent-All k ((j, m) ∷ store) h = (ground (arith, h), absent-All k store (ground (arith, h)))

pub sorted_items-IsSorted :
    (before : ℤ → ℤ → Bool) (store : Bins)
    → IsStrict before
    → IsDict store
    → IsSorted before (sorted_items before store)
unfolding sorted_items
sorted_items-IsSorted before [] o d = tt
sorted_items-IsSorted before ((k, n) ∷ store) o d =
    insert_item-IsSorted before k n (sorted_items before store) o
      (sorted_items-All _ before store (absent-All k store d.0))
      (sorted_items-IsSorted before store o d.1)

kept_count :
    (k : ℤ) (n : ℕ) (store items : Bins)
    → All (λ (i : ℤ × ℕ). (i.0 == k) ≡ false) items
    → All (λ (i : ℤ × ℕ). i.1 ≡ Dict.get_or i.0 0 store) items
    → All (λ (i : ℤ × ℕ). i.1 ≡ Dict.get_or i.0 0 ((k, n) ∷ store)) items
unfolding Dict.get_or
kept_count k n store [] ne h = tt
kept_count k n store ((j, m) ∷ items) ne h =
    let other : (k == j) ≡ false = ground (arith, ne.0, int_key.beq_iff k j, int_key.beq_iff j k) in
    (rw other (h.0), kept_count k n store items ne.1 h.1)

-- Each item holds the count of its key.
pub get_or-All :
    (store : Bins) → IsDict store → All (λ (i : ℤ × ℕ). i.1 ≡ Dict.get_or i.0 0 store) store
get_or-All [] d = tt
get_or-All ((k, n) ∷ store) d = (
  unfold Dict.get_or in rw (beq_refl k) refl,
  kept_count k n store store (absent-All k store d.0) (get_or-All store d.1),
)
