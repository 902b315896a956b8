-- ===== src/Log/State/Histogram.antt =====
-- A store of buckets as the histogram of some of the values of a stream, and its least and
-- greatest index.
use sketchlog.Prelude.Key.{beq_refl}
use mathlib.Core.Path.{subst}
use sketchlog.Prelude.{
  ℕ, ◌<◌, ◌≡◌, refl, ◌⊎◌, inl, inr, Bool, true, false, ◌&&◌, [], ◌∷◌, arith, Bool-cases,
}
use sketchlog.Prelude.Int.{ℤ, ltb_ℤ, ◌≤ℤ◌, eq_of_parts}
use sketchlog.Prelude.Key.{int_key, ◌==◌}
use sketchlog.Prelude.Dict
use sketchlog.Sketch.Bins.{AllKeys, Bins, IsCounts}
use sketchlog.Sketch.Ddsketch.Summary.{Stream, weight, Among}
use sketchlog.Sketch.Ddsketch.Weight.{AllKeys-counted, AllGiven, weight-Among, Among-weight}
use sketchlog.Log.State.Read.{greatest, smallest, max_key, min_key, is_used}

contains-counted : (k : ℤ) (store : Bins) → 0 < Dict.get_or k 0 store → Dict.contains k store ≡ true
unfolding Dict.get_or Dict.contains
contains-counted k [] h = absurd (omega (arith, h))
contains-counted k ((j, n) ∷ store) h = ground (arith, contains-counted k store)

antisym : (a b : ℤ) → a ≤ℤ b → b ≤ℤ a → a ≡ b
antisym a b h k = eq_of_parts a b (omega (arith, h, k))

ltb_ℤ-le : (a b : ℤ) → ltb_ℤ a b ≡ false → b ≤ℤ a
unfolding ltb_ℤ
ltb_ℤ-le a b h = ground arith

ltb_ℤ-ge : (a b : ℤ) → ltb_ℤ a b ≡ true → b ≤ℤ a → ⊥
unfolding ltb_ℤ
ltb_ℤ-ge a b h k = ground arith

contains-cases :
    (k j : ℤ) (n : ℕ) (store : Bins)
    → Dict.contains k ((j, n) ∷ store) ≡ true
    → (j ≡ k) ⊎ (Dict.contains k store ≡ true)
unfolding Dict.contains
contains-cases k j n store h = elim (Bool-cases (j == k)) [
  | inl same ↦ inl ((int_key.beq_iff j k).0 same)
  | inr other ↦ inr (rw other at h)
]

greatest_lem :
    (m top : ℤ) (store : Bins)
    → m ≤ℤ top
    → AllKeys (λ k. k ≤ℤ top) store
    → (m ≡ top) ⊎ (Dict.contains top store ≡ true)
    → greatest m store ≡ top
unfolding greatest
greatest_lem m top [] le a (inl e) = e
greatest_lem m top [] le a (inr c) = unfold Dict.contains in cc c
greatest_lem m top ((k, n) ∷ store) le a (inl e) = elim (Bool-cases (ltb_ℤ m k)) [
  | inl larger ↦ absurd (ltb_ℤ-ge m k larger (rw e (a.0)))
  | inr other ↦ rw other (greatest_lem m top store le a.1 (inl e))
]
greatest_lem m top ((k, n) ∷ store) le a (inr c) = elim (contains-cases top k n store c) [
  | inl e ↦ elim (Bool-cases (ltb_ℤ m k)) [
    | inl larger ↦ rw larger (greatest_lem k top store a.0 a.1 (inl e))
    | inr other ↦
        let same = antisym m top le (rw (← e) (ltb_ℤ-le m k other)) in
        rw other (greatest_lem m top store le a.1 (inl same))
  ]
  | inr rest ↦ elim (Bool-cases (ltb_ℤ m k)) [
    | inl larger ↦ rw larger (greatest_lem k top store a.0 a.1 (inr rest))
    | inr other ↦ rw other (greatest_lem m top store le a.1 (inr rest))
  ]
]

smallest_lem :
    (m low : ℤ) (store : Bins)
    → low ≤ℤ m
    → AllKeys (λ k. low ≤ℤ k) store
    → (m ≡ low) ⊎ (Dict.contains low store ≡ true)
    → smallest m store ≡ low
unfolding smallest
smallest_lem m low [] le a (inl e) = e
smallest_lem m low [] le a (inr c) = unfold Dict.contains in cc c
smallest_lem m low ((k, n) ∷ store) le a (inl e) = elim (Bool-cases (ltb_ℤ k m)) [
  | inl less ↦ absurd (ltb_ℤ-ge k m less (rw e (a.0)))
  | inr other ↦ rw other (smallest_lem m low store le a.1 (inl e))
]
smallest_lem m low ((k, n) ∷ store) le a (inr c) = elim (contains-cases low k n store c) [
  | inl e ↦ elim (Bool-cases (ltb_ℤ k m)) [
    | inl less ↦ rw less (smallest_lem k low store a.0 a.1 (inl e))
    | inr other ↦
        let same = antisym m low (rw (← e) (ltb_ℤ-le k m other)) le in
        rw other (smallest_lem m low store le a.1 (inl same))
  ]
  | inr rest ↦ elim (Bool-cases (ltb_ℤ k m)) [
    | inl less ↦ rw less (smallest_lem k low store a.0 a.1 (inr rest))
    | inr other ↦ rw other (smallest_lem m low store le a.1 (inr rest))
  ]
]

-- A key that is in a store and above all others is the greatest.
max_key_lem :
    (top : ℤ) (store : Bins)
    → Dict.contains top store ≡ true
    → AllKeys (λ k. k ≤ℤ top) store
    → max_key store ≡ top
max_key_lem top [] c a = unfold Dict.contains in cc c
max_key_lem top ((k, n) ∷ store) c a =
    greatest_lem k top store a.0 a.1 (contains-cases top k n store c)

min_key_lem :
    (low : ℤ) (store : Bins)
    → Dict.contains low store ≡ true
    → AllKeys (λ k. low ≤ℤ k) store
    → min_key store ≡ low
min_key_lem low [] c a = unfold Dict.contains in cc c
min_key_lem low ((k, n) ∷ store) c a =
    smallest_lem k low store a.0 a.1 (contains-cases low k n store c)

used-counted : (k : ℤ) (store : Bins) → 0 < Dict.get_or k 0 store → is_used store ≡ true
unfolding Dict.get_or
used-counted k [] h = absurd (omega (arith, h))
used-counted k ((j, n) ∷ store) h = refl

-- A store that counts, for each index, the values that pass a test and have it.
module _ {F : Type 0} (passes : F → Bool) (index : F → ℤ) (limit : ℕ) (store : Bins) (xs : Stream F)
    (given : AllGiven xs) (counts : IsCounts limit store)
    (h : (k : ℤ) → Dict.get_or k 0 store ≡ weight (λ x. passes x && (index x == k)) xs) where
  -- A value that passes is in its bucket,
  occupied : (x : F) → Among x xs → passes x ≡ true → 0 < Dict.get_or (index x) 0 store
  occupied x a p = rw (h (index x)) (
      weight-Among (λ y. passes y && (index y == index x)) x xs given a
        (rw (p, beq_refl (index x)) refl))

  -- and an index with a count is that of such a value.
  owner :
      (k : ℤ) → 0 < Dict.get_or k 0 store → (x : F) × Among x xs × (passes x ≡ true) × (index x ≡ k)
  owner k c =
      let (x, a, t) = Among-weight (λ y. passes y && (index y == k)) xs (rw (h k) at c) in
      (x, a, ground (arith, t), (int_key.beq_iff (index x) k).0 (ground (arith, t)))

  pub AllKeys-index :
      (P : ℤ → Type 0) → ((x : F) → Among x xs → passes x ≡ true → P (index x)) → AllKeys P store
  AllKeys-index P g =
      AllKeys-counted P limit store counts
        λ k c. let (x, a, p, e) = owner k c in subst P e (g x a p)

  pub used-Among : (x : F) → Among x xs → passes x ≡ true → is_used store ≡ true
  used-Among x a p = used-counted (index x) store (occupied x a p)

  pub Among-used : is_used store ≡ true → (x : F) × Among x xs × (passes x ≡ true)
  Among-used u = go store counts u (λ k c. owner k c)
    where
      go :
          (s : Bins)
          → IsCounts limit s
          → is_used s ≡ true
          → ((k : ℤ)
              → 0 < Dict.get_or k 0 s
              → (x : F) × Among x xs × (passes x ≡ true) × (index x ≡ k))
          → (x : F) × Among x xs × (passes x ≡ true)
      go [] c u o = cc u
      go ((k, n) ∷ s) c u o =
          let (x, a, p, e) = o k (unfold Dict.get_or in rw (beq_refl k) (c.0.0)) in (x, a, p)

  -- The index of a value that passes, where no other's is larger or smaller.
  pub max_key-index :
      (x : F)
      → Among x xs
      → passes x ≡ true
      → ((y : F) → Among y xs → passes y ≡ true → index y ≤ℤ index x)
      → max_key store ≡ index x
  max_key-index x a p g =
      max_key_lem (index x) store (contains-counted (index x) store (occupied x a p))
        (AllKeys-index (λ k. k ≤ℤ index x) g)

  pub min_key-index :
      (x : F)
      → Among x xs
      → passes x ≡ true
      → ((y : F) → Among y xs → passes y ≡ true → index x ≤ℤ index y)
      → min_key store ≡ index x
  min_key-index x a p g =
      min_key_lem (index x) store (contains-counted (index x) store (occupied x a p))
        (AllKeys-index (λ k. index x ≤ℤ k) g)
