-- ===== src/Sketch/Ddsketch/Weight.antt =====
-- How often the values of a stream were given that pass a test, and the counts of a store that is
-- a histogram of some of them.
use sketchlog.Prelude.{
  ℕ, ltb, ◌+◌, ◌≤◌, ◌<◌, ◌≡◌, refl, sym, ◌∙◌, inl, inr, Bool, true, false, not, ◌&&◌, [], ◌∷◌,
  arith, if◌then◌else◌, Bool-cases, All,
}
use sketchlog.Prelude.Int.{ℤ}
use sketchlog.Prelude.Key.{int_key, ◌==◌, beq_refl}
use sketchlog.Prelude.Dict
use sketchlog.Prelude.Dict.{IsDict}
use sketchlog.Prelude.Float.{Float}
use sketchlog.Sketch.Bins.{Bins, AllKeys, IsCounts}
use sketchlog.Sketch.Ddsketch.{count_where}
use sketchlog.Sketch.Ddsketch.Summary.{Stream, weight, Among, IsFinite}
use sketchlog.Sketch.Ddsketch.Batched.{get_or-absent}

-- Every value is given at least once.
abbrev pub AllGiven : {F : Type 0} → Stream F → Type 0
AllGiven [] = Unit
AllGiven ((x, n) ∷ xs) = (0 < n) × AllGiven xs

pub weight-Among :
    {F : Type 0} (test : F → Bool) (y : F) (xs : Stream F)
    → AllGiven xs
    → Among y xs
    → test y ≡ true
    → 0 < weight test xs
unfolding weight
weight-Among test y [] g a h = absurd a
weight-Among test y ((x, n) ∷ xs) g (inl e) h = rw (e, h) (omega (arith, g.0))
weight-Among test y ((x, n) ∷ xs) g (inr a) h = ground (arith, weight-Among test y xs g.1 a h)

pub Among-weight :
    {F : Type 0} (test : F → Bool) (xs : Stream F)
    → 0 < weight test xs
    → (y : F) × Among y xs × (test y ≡ true)
unfolding weight
Among-weight test [] h = absurd (omega (arith, h))
Among-weight test ((x, n) ∷ xs) h = elim (Bool-cases (test x)) [
  | inl passed ↦ (x, inl refl, passed)
  | inr other ↦ let (y, a, t) = Among-weight test xs (rw other at h) in (y, inr a, t)
]

-- What holds of each index with a count holds of the keys.
pub AllKeys-counted :
    (P : ℤ → Type 0) (limit : ℕ) (store : Bins)
    → IsCounts limit store
    → ((k : ℤ) → 0 < Dict.get_or k 0 store → P k)
    → AllKeys P store
AllKeys-counted P limit [] c h = tt
AllKeys-counted P limit ((j, n) ∷ store) c h = (
  h j (unfold Dict.get_or in rw (beq_refl j) (c.0.0)),
  AllKeys-counted P limit store c.1
      λ k given. h k (unfold Dict.get_or in ground (arith, c.0.0, given)),
)

pub weight_ext :
    {F : Type 0} (s t : F → Bool) (xs : Stream F)
    → ((x : F) → s x ≡ t x)
    → weight s xs ≡ weight t xs
unfolding weight
weight_ext s t [] h = refl
weight_ext s t ((x, n) ∷ xs) h = rw (h x, weight_ext s t xs h) refl

-- A test that follows from another one, for the values of the stream, passes at least as many.
pub weight_mono :
    {F : Type 0} (s t : F → Bool) (xs : Stream F)
    → ((x : F) → Among x xs → s x ≡ true → t x ≡ true)
    → weight s xs ≤ weight t xs
unfolding weight
weight_mono s t [] h = omega arith
weight_mono s t ((x, n) ∷ xs) h =
    let rest = weight_mono s t xs λ y a. h y (inr a) in
    let head = h x (inl refl) in ground (arith, rest, head)

pub weight_split :
    {F : Type 0} (s t : F → Bool) (xs : Stream F)
    → weight s xs ≡ weight (λ x. s x && t x) xs + weight (λ x. s x && not (t x)) xs
unfolding weight
weight_split s t [] = refl
weight_split s t ((x, n) ∷ xs) = ground (arith, weight_split s t xs)

pub given-finite : (f : Float) (xs : Stream f.F) → All (IsFinite f) xs → AllGiven xs
given-finite f [] h = tt
given-finite f ((x, n) ∷ xs) h = (h.0.2, given-finite f xs h.1)

pub weight-false : {F : Type 0} (xs : Stream F) → weight (λ _. false) xs ≡ 0
unfolding weight
weight-false [] = refl
weight-false ((x, n) ∷ xs) = weight-false xs

weight_const :
    {F : Type 0} (b : Bool) (t : F → Bool) (xs : Stream F)
    → weight (λ x. b && t x) xs ≡ (if b then weight t xs else 0)
weight_const true t xs = refl
weight_const false t xs = weight-false xs

-- Conjunctions of tests.
first : (a b : Bool) → (a && b) ≡ true → a ≡ true
first true b h = refl
first false b h = h

excluded : (a b : Bool) → ((a && not b) && b) ≡ false
excluded true true = refl
excluded true false = refl
excluded false b = refl

swapped : (a b c : Bool) → ((a && b) && c) ≡ ((a && c) && b)
swapped true true c = ground arith
swapped true false c = ground arith
swapped false b c = refl

kept :
    (a : Bool) (i k j : ℤ) → (k == j) ≡ false → (a && (i == j)) ≡ ((a && not (i == k)) && (i == j))
kept false i k j h = refl
kept true i k j h = ground (arith, int_key.beq_iff i j, int_key.beq_iff i k, int_key.beq_iff k j)

moved :
    (a : Bool) (i k : ℤ) (test : ℤ → Bool)
    → ((a && test i) && (i == k)) ≡ (test k && (a && (i == k)))
moved a i k test = elim (Bool-cases (i == k)) [
  | inl same ↦ let e = (int_key.beq_iff i k).0 same in rw (same, e) (ground arith)
  | inr other ↦ rw other (ground arith)
]

-- The counts of the buckets whose index passes a test are those of the values that have one.
module _ {F : Type 0} (index : F → ℤ) (test : ℤ → Bool) (xs : Stream F) (given : AllGiven xs) where
  abbrev Counts : (F → Bool) → Bins → Type 0
  Counts passes store =
      (k : ℤ) → Dict.get_or k 0 store ≡ weight (λ x. passes x && (index x == k)) xs

  nothing : (passes : F → Bool) → Counts passes [] → weight (λ x. passes x && test (index x)) xs ≡ 0
  nothing passes h = elim (Bool-cases (ltb 0 (weight (λ x. passes x && test (index x)) xs))) [
    | inr none_of ↦ ground (arith, none_of)
    | inl some_values ↦
        let (x, a, p) =
          Among-weight (λ y. passes y && test (index y)) xs (ground (arith, some_values)) in
        let counted =
          weight-Among (λ y. passes y && (index y == index x)) x xs given a
            (rw (first (passes x) _ p, beq_refl (index x)) refl) in
        let absent : 0 ≡ weight (λ y. passes y && (index y == index x)) xs =
          unfold Dict.get_or in h (index x) in
        absurd (omega (arith, counted, absent))
  ]

  -- The values of one bucket, and the others.
  tail :
      (passes : F → Bool) (k : ℤ) (n : ℕ) (store : Bins)
      → IsDict ((k, n) ∷ store)
      → Counts passes ((k, n) ∷ store)
      → Counts (λ x. passes x && not (index x == k)) store
  tail passes k n store d h j = elim (Bool-cases (k == j)) [
    | inl same ↦
        let e = (int_key.beq_iff k j).0 same in
        rw
          (
            ← e,
            get_or-absent k store d.0,
            weight_ext (λ x. (passes x && not (index x == k)) && (index x == k)) (λ _. false) xs
                (λ x. excluded (passes x) (index x == k)),
          )
          (sym (weight-false xs))
    | inr other ↦
        let counted : Dict.get_or j 0 store ≡ weight (λ x. passes x && (index x == j)) xs =
          unfold Dict.get_or in rw other at (h j) in
        counted
        ∙ weight_ext (λ x. passes x && (index x == j))
            (λ x. (passes x && not (index x == k)) && (index x == j)) xs
            λ x. kept (passes x) (index x) k j other
  ]

  of_bucket :
      (passes : F → Bool) (k : ℤ)
      → weight (λ x. (passes x && test (index x)) && (index x == k)) xs
        ≡ (if test k then weight (λ x. passes x && (index x == k)) xs else 0)
  of_bucket passes k =
      weight_ext (λ x. (passes x && test (index x)) && (index x == k))
        (λ x. test k && (passes x && (index x == k))) xs (λ x. moved (passes x) (index x) k test)
      ∙ weight_const (test k) (λ x. passes x && (index x == k)) xs

  pub count_where-weight :
      (passes : F → Bool) (store : Bins)
      → IsDict store
      → Counts passes store
      → count_where test store ≡ weight (λ x. passes x && test (index x)) xs
  unfolding count_where
  count_where-weight passes [] d h = sym (nothing passes h)
  count_where-weight passes ((k, n) ∷ store) d h =
      let rest =
        count_where-weight (λ x. passes x && not (index x == k)) store d.1
          (tail passes k n store d h) in
      let head : n ≡ weight (λ x. passes x && (index x == k)) xs =
        unfold Dict.get_or in rw (beq_refl k) at (h k) in
      let split = weight_split (λ x. passes x && test (index x)) (λ x. index x == k) xs in
      let others =
        weight_ext (λ x. (passes x && not (index x == k)) && test (index x))
          (λ x. (passes x && test (index x)) && not (index x == k)) xs
          λ x. swapped (passes x) (not (index x == k)) (test (index x)) in
      ground (arith, rest, head, split, others, of_bucket passes k)
