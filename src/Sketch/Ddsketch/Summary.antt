-- ===== src/Sketch/Ddsketch/Summary.antt =====
-- The abstract view of a DDSketch: the values that it was given, each with its count, in any
-- order. A sketch is a summary of such values when each bucket holds the counts of those that
-- belong to it, and its extrema are theirs. The operations keep this view.
use sketchlog.Prelude.{
  ℕ, ◌+◌, ◌<◌, ◌≡◌, refl, ap, ◌∙◌, ◌⊎◌, inl, inr, Bool, true, false, not, ◌&&◌, List, [], ◌∷◌, ◌++◌,
  arith, if◌then◌else◌, All,
}
use sketchlog.Prelude.Int.{ℤ}
use sketchlog.Prelude.Key.{int_key, ◌==◌}
use sketchlog.Prelude.Dict
use sketchlog.Prelude.Float.{Float}
use sketchlog.Sketch.Ddsketch.{bucket_value, Dd, fresh, key, is_inaccurate, reset}

-- The values and their counts.
abbrev pub Stream : Type 0 → Type 0
Stream F = List (F × ℕ)

-- How often the values were given that pass a test.
unfoldable pub weight : {F : Type 0} → (F → Bool) → Stream F → ℕ
weight test [] = 0
weight test ((x, n) ∷ xs) = let rest = weight test xs in if test x then n + rest else rest

-- A value is one of them.
abbrev pub Among : {F : Type 0} → F → Stream F → Type 0
Among y [] = ⊥
Among y ((x, n) ∷ xs) = (x ≡ y) ⊎ Among y xs

pub weight-append :
    {F : Type 0} (test : F → Bool) (xs ys : Stream F)
    → weight test (xs ++ ys) ≡ weight test xs + weight test ys
unfolding weight
weight-append test [] ys = omega arith
weight-append test ((x, n) ∷ xs) ys = ground (arith, weight-append test xs ys)

pub Among-append :
    {F : Type 0} (y : F) (xs ys : Stream F) → Among y xs ⊎ Among y ys → Among y (xs ++ ys)
Among-append y [] ys (inl h) = absurd h
Among-append y [] ys (inr h) = h
Among-append y ((x, n) ∷ xs) ys (inl (inl h)) = inl h
Among-append y ((x, n) ∷ xs) ys (inl (inr h)) = inr (Among-append y xs ys (inl h))
Among-append y ((x, n) ∷ xs) ys (inr h) = inr (Among-append y xs ys (inr h))

pub All-append :
    {F : Type 0} (P : F × ℕ → Type 0) (xs ys : Stream F) → All P xs → All P ys → All P (xs ++ ys)
All-append P [] ys h k = k
All-append P (x ∷ xs) ys h k = (h.0, All-append P xs ys h.1 k)

pub All-map :
    {F : Type 0} (P Q : F × ℕ → Type 0) (xs : Stream F)
    → ((x : F × ℕ) → P x → Q x)
    → All P xs
    → All Q xs
All-map P Q [] g h = tt
All-map P Q (x ∷ xs) g h = (g x h.0, All-map P Q xs g h.1)

module _ (f : Float) where
  open f use {F, of_nat, lt, le, eq, neg, abs, is_nan, is_inf, inf}

  -- The buckets that a value belongs to, in a sketch of an accuracy.
  unfoldable pub in_positive : F → ℤ → F → Bool
  in_positive accuracy k x = lt (of_nat 0) x && (key f (fresh f accuracy) x == k)

  unfoldable pub in_negative : F → ℤ → F → Bool
  in_negative accuracy k x = lt x (of_nat 0) && (key f (fresh f accuracy) (neg x) == k)

  unfoldable pub in_zero : F → Bool
  in_zero x = not (lt (of_nat 0) x) && not (lt x (of_nat 0))

  abbrev pub IsFinite : F × ℕ → Type 0
  IsFinite x = (is_nan x.0 ≡ false) × (is_inf x.0 ≡ false) × (0 < x.1)

  -- A value that is not zero is close to the representative of its bucket.
  abbrev pub IsAccurate : F → F × ℕ → Type 0
  IsAccurate accuracy x =
      eq x.0 (of_nat 0) ≡ false → is_inaccurate f (fresh f accuracy) (abs x.0) ≡ false

  pub record IsSummary (accuracy : F) (s : Dd F) (xs : Stream F) : Type 0 where
    pub alpha : s.alpha ≡ accuracy
    pub gamma : s.gamma ≡ (fresh f accuracy).gamma
    pub multiplier : s.multiplier ≡ (fresh f accuracy).multiplier
    pub finite : All IsFinite xs
    pub accurate : All (IsAccurate accuracy) xs
    pub positive : (k : ℤ) → Dict.get_or k 0 s.positive ≡ weight (in_positive accuracy k) xs
    pub negative : (k : ℤ) → Dict.get_or k 0 s.negative ≡ weight (in_negative accuracy k) xs
    pub zeros : s.zero_count ≡ weight in_zero xs
    pub counted : s.count ≡ weight (λ _. true) xs
    pub least : All (λ x. lt x.0 s.min ≡ false) xs
    pub most : All (λ x. lt s.max x.0 ≡ false) xs
    pub lowest : ((xs ≡ []) × (s.min ≡ inf)) ⊎ Among s.min xs
    pub highest : ((xs ≡ []) × (s.max ≡ neg inf)) ⊎ Among s.max xs

  pub fresh-IsSummary : (accuracy : F) → IsSummary accuracy (fresh f accuracy) []
  unfolding fresh weight Dict.get_or
  fresh-IsSummary accuracy = record {
    alpha = refl;
    gamma = refl;
    multiplier = refl;
    finite = tt;
    accurate = tt;
    positive = λ k. refl;
    negative = λ k. refl;
    zeros = refl;
    counted = refl;
    least = tt;
    most = tt;
    lowest = inl (refl, refl);
    highest = inl (refl, refl);
  }

  pub reset-IsSummary :
      (accuracy : F) (s : Dd F) (xs : Stream F)
      → IsSummary accuracy s xs
      → IsSummary accuracy (reset f s) []
  unfolding reset weight Dict.get_or
  reset-IsSummary accuracy s xs h = record {
    alpha = h.alpha;
    gamma = h.gamma;
    multiplier = h.multiplier;
    finite = tt;
    accurate = tt;
    positive = λ k. refl;
    negative = λ k. refl;
    zeros = refl;
    counted = refl;
    least = tt;
    most = tt;
    lowest = inl (refl, refl);
    highest = inl (refl, refl);
  }

  pub key-same :
      (accuracy : F) (s : Dd F) (xs : Stream F)
      → IsSummary accuracy s xs
      → (x : F) → key f s x ≡ key f (fresh f accuracy) x
  unfolding key
  key-same accuracy s xs h x = rw (h.multiplier)

  -- Values that are each given at least once weigh nothing only if there are none.
  pub no_weight : (ys : Stream F) → All IsFinite ys → weight (λ _. true) ys ≡ 0 → ys ≡ []
  unfolding weight
  no_weight [] p e = refl
  no_weight ((y, n) ∷ ys) p e = absurd (omega (arith, p.0.2, e))

  pub bucket_value-same :
      (accuracy : F) (s : Dd F) (xs : Stream F)
      → IsSummary accuracy s xs
      → (k : ℤ) → bucket_value f s k ≡ bucket_value f (fresh f accuracy) k
  unfolding bucket_value
  bucket_value-same accuracy s xs h k = rw (h.gamma) refl

  pub is_inaccurate-same :
      (accuracy : F) (s : Dd F) (xs : Stream F)
      → IsSummary accuracy s xs
      → (x : F) → is_inaccurate f s x ≡ is_inaccurate f (fresh f accuracy) x
  unfolding is_inaccurate
  is_inaccurate-same accuracy s xs h x =
      let rep : bucket_value f s (key f s x)
          ≡ bucket_value f (fresh f accuracy) (key f (fresh f accuracy) x) =
        ap (λ k. bucket_value f s k) (key-same accuracy s xs h x)
        ∙ bucket_value-same accuracy s xs h (key f (fresh f accuracy) x) in
      let bound : s.alpha ≡ (fresh f accuracy).alpha = h.alpha ∙ (unfold fresh in refl) in
      λ i. lt (bound i) (f.div (abs (f.sub (rep i) x)) x)
