-- ===== src/RateLimit/Enforcer/Decide.antt =====
-- The decision on one request, and what it leaves of the bucket and the counter.
use sketchlog.RateLimit.Counter.Bounds.{Within-suc}
use sketchlog.RateLimit.Counter.{check_quotas}
use sketchlog.Prelude.{
  ℕ, ◌+◌, String, ◌≡◌, refl, ap, ◌⊎◌, inl, inr, true, false, Option, none, some, Bool-cases,
}
use sketchlog.Prelude.Int.{ℤ, pos, ltb_ℤ}
use sketchlog.Prelude.Float.{Float, FloatArith, of_int}
use sketchlog.RateLimit.Quota.{NamespaceQuota}
use sketchlog.RateLimit.Bucket.{refill, take_tokens, consume, available}
use sketchlog.RateLimit.Bucket.Bounds.{IsBounded, refill-IsBounded, consume-IsBounded}
use sketchlog.RateLimit.Counter.{
  QuotaCounter, Refusal, is_spent, increment, reset_if_needed, check_and_increment, read_hourly,
  read_daily,
}
use sketchlog.RateLimit.Counter.Bounds.{IsWithin, decrement-increment, reset_if_needed-IsWithin}
use sketchlog.RateLimit.Enforcer.{
  LimitResult, allowed, rate_limited, quota_exceeded, Reason, Slot, decide, take_or_roll_back,
  after_quota, serve,
}

module _ (f : Float) (time : ℕ → f.F) where
  open f use {F, le}

  -- A counter that two more readings of the clock may have reset.
  abbrev pub Read : QuotaCounter F → QuotaCounter F → Type 0
  Read c' c = (i : ℕ) × (j : ℕ) × (c' ≡ reset_if_needed f (time i) (reset_if_needed f (time j) c))

  -- `check` grants a request exactly when both counts, after the reset, are below their positive
  -- quotas and the refilled bucket holds the tokens. Only then is the request counted: a refusal
  -- by the bucket rolls the count back, so that of a refused request only the resets of the clock
  -- remain in the counter.
  pub serve_lem :
      (name : String) (q : NamespaceQuota F) (tokens : ℤ) (s : Slot F)
      → let r = reset_if_needed f (time s.ticks) s.counter in
        let x = serve f time name q tokens s in
        let enough = le (of_int f tokens) (refill f (time (s.ticks + 1)) s.bucket).tokens in
        let hour = is_spent q.hourly_quota r.hourly_count in
        let day = is_spent q.daily_quota r.daily_count in
        ((x.0.result ≡ quota_exceeded) × ((hour ≡ true) ⊎ (day ≡ true)) × Read x.1.counter r)
        ⊎ ((x.0.result ≡ rate_limited)
            × (hour ≡ false)
            × (day ≡ false)
            × (enough ≡ false)
            × Read x.1.counter r)
        ⊎ ((x.0.result ≡ allowed)
            × (hour ≡ false)
            × (day ≡ false)
            × (enough ≡ true)
            × Read x.1.counter (increment r))
  unfolding serve take_or_roll_back consume take_tokens check_and_increment check_quotas decide
      read_hourly read_daily available
  serve_lem name q tokens s =
      let r = reset_if_needed f (time s.ticks) s.counter in
      elim (Bool-cases (is_spent q.hourly_quota r.hourly_count)) [
        | inl spent ↦ rw spent (inl (refl, inl refl, (s.ticks + 1 + 2, s.ticks + 1 + 1, refl)))
        | inr hour ↦ elim (Bool-cases (is_spent q.daily_quota r.daily_count)) [
          | inl spent ↦
              rw (hour, spent) (inl (refl, inr refl, (s.ticks + 1 + 2, s.ticks + 1 + 1, refl)))
          | inr day ↦
              elim (Bool-cases
                (le (of_int f tokens) (refill f (time (s.ticks + 1)) s.bucket).tokens)) [
                  | inr short ↦
                      rw (hour, day, short)
                        (inr (
                          inl (
                            refl,
                            refl,
                            refl,
                            refl,
                            (
                              s.ticks + 1 + 1 + 2,
                              s.ticks + 1 + 1 + 1,
                              ap
                                  (λ c.
                                    reset_if_needed f (time (s.ticks + 1 + 1 + 2))
                                      (reset_if_needed f (time (s.ticks + 1 + 1 + 1)) c))
                                  (decrement-increment r),
                            ),
                          )))
                  | inl enough ↦
                      rw (hour, day, enough)
                        (inr (
                          inr (
                            refl,
                            refl,
                            refl,
                            refl,
                            (s.ticks + 1 + 1 + 2, s.ticks + 1 + 1 + 1, refl),
                          )))
                ]
        ]
      ]

  Read-IsWithin :
      (q : NamespaceQuota F) (c' c : QuotaCounter F)
      → Read c' c
      → IsWithin q.hourly_quota q.daily_quota c
      → IsWithin q.hourly_quota q.daily_quota c'
  Read-IsWithin q c' c (i, j, e) h = rw e (
      reset_if_needed-IsWithin f q.hourly_quota q.daily_quota (time i) _
        (reset_if_needed-IsWithin f q.hourly_quota q.daily_quota (time j) c h))

  -- A request leaves the counter within the quotas of its namespace.
  pub serve-IsWithin :
      (name : String) (q : NamespaceQuota F) (tokens : ℤ) (s : Slot F)
      → IsWithin q.hourly_quota q.daily_quota s.counter
      → IsWithin q.hourly_quota q.daily_quota (serve f time name q tokens s).1.counter
  serve-IsWithin name q tokens s h =
      let k = reset_if_needed-IsWithin f q.hourly_quota q.daily_quota (time s.ticks) s.counter h in
      elim (serve_lem name q tokens s) [
        | inl (_, _, read) ↦ Read-IsWithin q _ _ read k
        | inr (inl (_, _, _, _, read)) ↦ Read-IsWithin q _ _ read k
        | inr (inr (_, hour, day, _, read)) ↦
            Read-IsWithin q _ _ read
              (Within-suc q.hourly_quota _ hour, Within-suc q.daily_quota _ day)
      ]

  module _ (laws : FloatArith f) where
    decide-IsBounded :
        (name : String) (result : LimitResult) (reason : Reason F) (s : Slot F)
        → IsBounded f s.bucket
        → IsBounded f (decide f time name result reason s).1.bucket
    unfolding decide available
    decide-IsBounded name result reason s v = refill-IsBounded f laws _ s.bucket v

    after_quota-IsBounded :
        (name : String) (q : NamespaceQuota F) (tokens : ℤ) (o : Option Refusal) (s : Slot F)
        → ltb_ℤ tokens (pos 0) ≡ false
        → IsBounded f s.bucket
        → IsBounded f (after_quota f time name q tokens o s).1.bucket
    unfolding take_or_roll_back
    after_quota-IsBounded name q tokens (some refusal) s given v = decide-IsBounded name _ _ s v
    after_quota-IsBounded name q tokens none s given v =
        let w = consume-IsBounded f laws (time s.ticks) tokens s.bucket given v in
        elim (Bool-cases (consume f (time s.ticks) tokens s.bucket).0) [
          | inl taken ↦ rw taken (decide-IsBounded name _ _ _ w)
          | inr short ↦ rw short (decide-IsBounded name _ _ _ w)
        ]

    -- A request for a number of tokens that is not negative leaves the bucket between 0 and its burst.
    pub serve-IsBounded :
        (name : String) (q : NamespaceQuota F) (tokens : ℤ) (s : Slot F)
        → ltb_ℤ tokens (pos 0) ≡ false
        → IsBounded f s.bucket
        → IsBounded f (serve f time name q tokens s).1.bucket
    unfolding serve
    serve-IsBounded name q tokens s given v = after_quota-IsBounded name q tokens _ _ given v
