-- ===== src/RateLimit/Bucket/Bounds.antt =====
-- The tokens of a bucket stay between 0 and its burst, as long as no negative number is consumed.
use sketchlog.Prelude.{ℕ, ◌≡◌, false, arith, Bool-cases, inl, inr}
use sketchlog.Prelude.Int.{ℤ, pos, negsuc, ltb_ℤ}
use sketchlog.Prelude.Float.{Float, FloatArith, of_int, fmin, fmax}
use sketchlog.RateLimit.Bucket.{TokenBucket, new_bucket, refill, take_tokens, consume}

module _ (f : Float) where
  open f use {F, of_nat, lt, le}

  -- The configuration is positive, as `NamespaceQuota` demands, and the tokens are in range.
  pub record IsBounded (b : TokenBucket F) : Type 0 where
    pub rated : lt b.rate (of_nat 0) ≡ false
    pub sized : lt (of_int f b.burst) (of_nat 0) ≡ false
    pub below : lt (of_int f b.burst) b.tokens ≡ false
    pub above : lt b.tokens (of_nat 0) ≡ false

module _ (f : Float) (laws : FloatArith f) where
  open f use {F, of_nat, lt, le}

  lt_irrefl : (x : F) → lt x x ≡ false
  lt_irrefl x = elim (Bool-cases (lt x x)) [ inl up ↦ laws.order.lt_asymm x x up | inr same ↦ same ]

  fmin-not_above : (b x : F) → lt b (fmin f b x) ≡ false
  fmin-not_above b x = elim (Bool-cases (lt x b)) [
    | inl small ↦ rw small (laws.order.lt_asymm x b small)
    | inr large ↦ rw large (lt_irrefl b)
  ]

  fmin-nonneg :
      (b x : F)
      → lt b (of_nat 0) ≡ false
      → lt x (of_nat 0) ≡ false
      → lt (fmin f b x) (of_nat 0) ≡ false
  fmin-nonneg b x h k = elim (Bool-cases (lt x b)) [
    | inl small ↦ rw small k
    | inr large ↦ rw large h
  ]

  fmax-nonneg : (x : F) → lt (fmax f (of_nat 0) x) (of_nat 0) ≡ false
  fmax-nonneg x = elim (Bool-cases (lt (of_nat 0) x)) [
    | inl up ↦ rw up (laws.order.lt_asymm (of_nat 0) x up)
    | inr down ↦ rw down (lt_irrefl (of_nat 0))
  ]

  pub new_bucket-IsBounded :
      (rate : F) (burst : ℕ) (now : F)
      → le rate (of_nat 0) ≡ false
      → IsBounded f (new_bucket f rate (pos burst) now)
  unfolding new_bucket
  new_bucket-IsBounded rate burst now positive = record {
    rated = elim (Bool-cases (lt rate (of_nat 0))) [
      | inl down ↦ cc (laws.le_of_lt rate (of_nat 0) down)
      | inr up ↦ up
    ];
    sized = laws.of_nat_nonneg burst;
    below = lt_irrefl (of_nat burst);
    above = laws.of_nat_nonneg burst;
  }

  pub refill-IsBounded :
      (now : F) (b : TokenBucket F) → IsBounded f b → IsBounded f (refill f now b)
  unfolding refill
  refill-IsBounded now b v = record {
    rated = v.rated;
    sized = v.sized;
    below = fmin-not_above _ _;
    above =
        fmin-nonneg _ _ v.sized
          (laws.add_nonneg _ _ v.above (laws.mul_nonneg _ _ (fmax-nonneg _) v.rated));
  }

  take_tokens-IsBounded :
      (n : ℕ) (b : TokenBucket F) → IsBounded f b → IsBounded f (take_tokens f (pos n) b).1
  unfolding take_tokens
  take_tokens-IsBounded n b v = elim (Bool-cases (le (of_nat n) b.tokens)) [
    | inr short ↦ rw short v
    | inl enough ↦ rw enough (record {
      rated = v.rated;
      sized = v.sized;
      below = elim (Bool-cases (lt (of_int f b.burst) (f.sub b.tokens (of_nat n)))) [
        | inl over ↦ cc (v.below, laws.lt_sub (of_int f b.burst) b.tokens n over)
        | inr fits ↦ fits
      ];
      above = laws.sub_nonneg b.tokens n enough;
    })
  ]

  take-IsBounded :
      (tokens : ℤ) (b : TokenBucket F)
      → ltb_ℤ tokens (pos 0) ≡ false
      → IsBounded f b
      → IsBounded f (take_tokens f tokens b).1
  take-IsBounded (pos n) b given v = take_tokens-IsBounded n b v
  take-IsBounded (negsuc n) b given v = absurd (unfold ltb_ℤ in ground (arith, given))

  -- Whatever the clock shows, forwards or backwards, `consume` of a number of tokens that is not
  -- negative keeps a bucket within its bounds: the tokens stay between 0 and the burst, and the
  -- rate and the burst are not negative.
  pub consume-IsBounded :
      (now : F) (tokens : ℤ) (b : TokenBucket F)
      → ltb_ℤ tokens (pos 0) ≡ false
      → IsBounded f b
      → IsBounded f (consume f now tokens b).1
  unfolding consume
  consume-IsBounded now tokens b given v =
      take-IsBounded tokens (refill f now b) given (refill-IsBounded now b v)
