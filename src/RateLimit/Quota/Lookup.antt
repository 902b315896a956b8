-- ===== src/RateLimit/Quota/Lookup.antt =====
-- `get_quota` prefers the exact quota, then the wildcard, then the defaults, and what it returns
-- has passed the validation of `NamespaceQuota`.
use sketchlog.RateLimit.Quota.{empty_namespace, bad_rate, bad_burst, bad_hourly, bad_daily}
use text.Mathlib.Text.{◌==◌ as str_eq}
use sketchlog.Prelude.{
  ℕ, suc, ◌<◌, String, ◌≡◌, refl, inl, inr, Bool, false, ◌&&◌, Option, none, some, List, [], ◌∷◌,
  ◌++◌, arith, if◌then◌else◌, Bool-cases, All,
}
use sketchlog.Prelude.Int.{ℤ, pos, negsuc, ltb_ℤ}
use sketchlog.Prelude.Exec.{Result, ok, err, append_if, raise_errors, no_error}
use sketchlog.Prelude.Float.{Float}
use sketchlog.RateLimit.Quota.{
  NamespaceQuota, RateLimitConfig, QuotaError, hourly_above_daily, quota_errors, make_quota,
  config_errors, make_config, scan, choose, default_quota, get_quota,
}

module _ (f : Float) where
  open f use {F, of_nat, le}

  -- The first quota of a namespace, and the last one of the wildcard.
  unfoldable pub first_named : String → List (NamespaceQuota F) → Option (NamespaceQuota F)
  first_named name [] = none
  first_named name (q ∷ quotas) =
      if str_eq q.namespace name then some q else first_named name quotas

  unfoldable pub last_wildcard :
      List (NamespaceQuota F) → Option (NamespaceQuota F) → Option (NamespaceQuota F)
  last_wildcard [] found = found
  last_wildcard (q ∷ quotas) found =
      last_wildcard quotas (if str_eq q.namespace "*" then some q else found)

abbrev Raises : {E A : Type 0} → Result (List E) A → Type 0
Raises {E} r = (es : List E) × (r ≡ err es)

-- One error in the list is enough for the constructor to raise.
Raises-append :
    {E A : Type 0} (xs ys : List E) (a : A)
    → Raises (raise_errors ys a)
    → Raises (raise_errors (xs ++ ys) a)
Raises-append [] ys a h = h
Raises-append (x ∷ xs) ys a h = (x ∷ (xs ++ ys), refl)

Raises-last :
    {E A : Type 0} (us vs ws xs ys zs : List E) (a : A)
    → Raises (raise_errors zs a)
    → Raises (raise_errors (us ++ (vs ++ (ws ++ (xs ++ (ys ++ zs))))) a)
Raises-last us vs ws xs ys zs a h = Raises-append us (vs ++ (ws ++ (xs ++ (ys ++ zs)))) a (
    Raises-append vs (ws ++ (xs ++ (ys ++ zs))) a (
      Raises-append ws (xs ++ (ys ++ zs)) a
        (Raises-append xs (ys ++ zs) a (Raises-append ys zs a h))))

module _ (f : Float) (blank : String → Bool) where
  open f use {F, of_nat, le}

  abbrev pub prefer :
      RateLimitConfig F
      → String
      → Option (NamespaceQuota F)
      → Option (NamespaceQuota F)
      → Result (List QuotaError) (NamespaceQuota F)
  prefer c name (some exact) wildcard = ok exact
  prefer c name none (some wildcard) = ok wildcard
  prefer c name none none = make_quota f blank (default_quota f blank c name)

  scan_lem :
      (c : RateLimitConfig F) (name : String) (quotas : List (NamespaceQuota F))
      (found : Option (NamespaceQuota F))
      → choose f blank c name (scan f blank name quotas found)
        ≡ prefer c name (first_named f name quotas) (last_wildcard f quotas found)
  unfolding scan first_named last_wildcard
  scan_lem c name [] none = refl
  scan_lem c name [] (some q) = refl
  scan_lem c name (q ∷ quotas) found = elim (Bool-cases (str_eq q.namespace name)) [
    | inl same ↦ rw same refl
    | inr other ↦
        rw other (scan_lem c name quotas (if str_eq q.namespace "*" then some q else found))
  ]

  -- The exact quota of a namespace wins over the wildcard, the wildcard over the defaults, and of
  -- two exact quotas the first one, of two wildcards the last one.
  pub get_quota_lem :
      (c : RateLimitConfig F) (name : String)
      → get_quota f blank c name
        ≡ prefer c name (first_named f name c.quotas) (last_wildcard f c.quotas none)
  unfolding get_quota
  get_quota_lem c name = scan_lem c name c.quotas none

  refused_by :
      (q : NamespaceQuota F)
      → append_if
          (ltb_ℤ (pos 0) q.hourly_quota
            && ltb_ℤ (pos 0) q.daily_quota
            && ltb_ℤ q.daily_quota q.hourly_quota)
          hourly_above_daily
        ≡ hourly_above_daily ∷ []
      → Raises (make_quota f blank q)
  unfolding make_quota quota_errors
  refused_by q last =
      Raises-last (append_if (blank q.namespace) empty_namespace)
        (append_if (le q.rate_per_second (of_nat 0)) bad_rate)
        (append_if (ltb_ℤ q.burst (pos 1)) bad_burst)
        (append_if (ltb_ℤ q.hourly_quota (pos 0)) bad_hourly)
        (append_if (ltb_ℤ q.daily_quota (pos 0)) bad_daily)
        (append_if
          (ltb_ℤ (pos 0) q.hourly_quota
            && ltb_ℤ (pos 0) q.daily_quota
            && ltb_ℤ q.daily_quota q.hourly_quota)
          hourly_above_daily)
        q (rw last (hourly_above_daily ∷ [], refl))

  -- A configuration that its constructor accepts can still have defaults that `get_quota` rejects:
  -- with a positive default rate and burst, where the default hourly quota exceeds the positive
  -- default daily one, the lookup of every namespace without a quota of its own raises, if there
  -- is no wildcard.
  pub get_quota-raises :
      (c : RateLimitConfig F) (name : String) (burst hourly daily : ℕ)
      → le c.default_rate_per_second (of_nat 0) ≡ false
      → c.default_burst ≡ pos (suc burst)
      → c.default_hourly_quota ≡ pos hourly
      → c.default_daily_quota ≡ pos (suc daily)
      → suc daily < hourly
      → first_named f name c.quotas ≡ none
      → last_wildcard f c.quotas none ≡ none
      → (make_config f blank c ≡ ok c)
        × ((es : List QuotaError) × (get_quota f blank c name ≡ err es))
  get_quota-raises c name burst hourly daily rated b h d over unnamed no_wildcard = (
    accepted,
    rw (get_quota_lem c name, unnamed, no_wildcard)
        (refused_by (default_quota f blank c name) unordered),
  )
    where
      accepted : make_config f blank c ≡ ok c
      accepted =
          let big : ltb_ℤ c.default_burst (pos 1) ≡ false = unfold ltb_ℤ in rw b (ground arith) in
          let hour : ltb_ℤ c.default_hourly_quota (pos 0) ≡ false =
            unfold ltb_ℤ in rw h (ground arith) in
          let day : ltb_ℤ c.default_daily_quota (pos 0) ≡ false =
            unfold ltb_ℤ in rw d (ground arith) in
          unfold make_config config_errors in rw (rated, big, hour, day) refl

      unordered :
          append_if
            (ltb_ℤ (pos 0) c.default_hourly_quota
              && ltb_ℤ (pos 0) c.default_daily_quota
              && ltb_ℤ c.default_daily_quota c.default_hourly_quota)
            hourly_above_daily
          ≡ hourly_above_daily ∷ []
      unordered = unfold ltb_ℤ in rw (h, d) (ground arith)

  abbrev pub IsChecked : NamespaceQuota F → Type 0
  IsChecked q = quota_errors f blank q ≡ []

  IsChecked-make_quota : (q q' : NamespaceQuota F) → make_quota f blank q ≡ ok q' → IsChecked q'
  unfolding make_quota
  IsChecked-make_quota q q' h = go (quota_errors f blank q) refl h
    where
      go :
          (es : List QuotaError)
          → quota_errors f blank q ≡ es
          → raise_errors es q ≡ ok q'
          → IsChecked q'
      go [] e h = let same : q ≡ q' = cc in rw (← same) e
      go (x ∷ es) e h = cc

  IsChecked-first_named :
      (name : String) (quotas : List (NamespaceQuota F)) (q : NamespaceQuota F)
      → All IsChecked quotas
      → first_named f name quotas ≡ some q
      → IsChecked q
  unfolding first_named
  IsChecked-first_named name [] q h e = cc
  IsChecked-first_named name (x ∷ quotas) q h e = elim (Bool-cases (str_eq x.namespace name)) [
    | inl same ↦ let is : x ≡ q = ground arith in rw (← is) h.0
    | inr other ↦ IsChecked-first_named name quotas q h.1 (rw other at e)
  ]

  abbrev IsCheckedOption : Option (NamespaceQuota F) → Type 0
  IsCheckedOption none = Unit
  IsCheckedOption (some q) = IsChecked q

  IsCheckedOption-last_wildcard :
      (quotas : List (NamespaceQuota F)) (found : Option (NamespaceQuota F))
      → All IsChecked quotas
      → IsCheckedOption found
      → IsCheckedOption (last_wildcard f quotas found)
  unfolding last_wildcard
  IsCheckedOption-last_wildcard [] found h k = k
  IsCheckedOption-last_wildcard (x ∷ quotas) found h k =
      elim (Bool-cases (str_eq x.namespace "*")) [
        | inl same ↦ rw same (IsCheckedOption-last_wildcard quotas (some x) h.1 h.0)
        | inr other ↦ rw other (IsCheckedOption-last_wildcard quotas found h.1 k)
      ]

  -- What `get_quota` returns has passed the validation of `NamespaceQuota`, if the quotas of the
  -- configuration have.
  pub get_quota-IsChecked :
      (c : RateLimitConfig F) (name : String) (q : NamespaceQuota F)
      → All IsChecked c.quotas
      → get_quota f blank c name ≡ ok q
      → IsChecked q
  get_quota-IsChecked c name q h e =
      go (first_named f name c.quotas) (last_wildcard f c.quotas none)
        (λ q' is. IsChecked-first_named name c.quotas q' h is) refl
        (IsCheckedOption-last_wildcard c.quotas none h tt) (rw (get_quota_lem c name) at e)
    where
      go :
          (exact wildcard : Option (NamespaceQuota F))
          → ((q' : NamespaceQuota F) → first_named f name c.quotas ≡ some q' → IsChecked q')
          → first_named f name c.quotas ≡ exact
          → IsCheckedOption wildcard
          → prefer c name exact wildcard ≡ ok q
          → IsChecked q
      go (some x) wildcard k is w e = let same : x ≡ q = cc in rw (← same) (k x is)
      go none (some x) k is w e = let same : x ≡ q = cc in rw (← same) w
      go none none k is w e = IsChecked-make_quota _ q e

  at_least_one : (n : ℤ) → ltb_ℤ n (pos 1) ≡ false → (m : ℕ) × (n ≡ pos m)
  unfolding ltb_ℤ
  at_least_one (pos n) h = (n, refl)
  at_least_one (negsuc n) h = absurd (ground arith)

  -- A validated quota has a positive rate and a burst that is no negative number.
  pub positive_of_checked :
      (q : NamespaceQuota F)
      → IsChecked q
      → (le q.rate_per_second (of_nat 0) ≡ false) × ((n : ℕ) × (q.burst ≡ pos n))
  unfolding quota_errors
  positive_of_checked q h =
      let (_, h₁) = no_error (blank q.namespace) _ _ h in
      let (rated, h₂) = no_error (le q.rate_per_second (of_nat 0)) _ _ h₁ in
      let (sized, _) = no_error (ltb_ℤ q.burst (pos 1)) _ _ h₂ in
      (rated, at_least_one q.burst sized)
