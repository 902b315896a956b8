-- ===== src/RateLimit/Enforcer.antt =====
-- `RateLimitEnforcer`. `time n` is the n-th reading of the injected clock; the enforcer counts the
-- readings that were made. Its dictionaries hold the bucket and the counter of each namespace.
pub mod Decide
pub mod Check
use sketchlog.Prelude.{
  ℕ, ◌+◌, String, Bool, true, false, Option, none, some, List, [], ◌∷◌, if◌then◌else◌,
}
use sketchlog.Prelude.Int.{ℤ}
use sketchlog.Prelude.Key.{string_key}
use sketchlog.Prelude.Dict
use sketchlog.Prelude.Dict.{Dict}
use sketchlog.Prelude.Exec.{Result, ok, err}
use sketchlog.Prelude.Float.{Float}
use sketchlog.RateLimit.Quota.{NamespaceQuota, RateLimitConfig, QuotaError, get_quota}
use sketchlog.RateLimit.Bucket.{TokenBucket, new_bucket, consume, available}
use sketchlog.RateLimit.Counter.{
  QuotaCounter, Refusal, new_counter, check_and_increment, decrement, read_hourly, read_daily,
}

pub data LimitResult : Type 0 where
  allowed rate_limited quota_exceeded : LimitResult

-- The text of a decision, with the values that it shows.
pub data Reason (F : Type 0) : Type 0 where
  served : Reason F
  limited : ℤ → F → Reason F
  refused : Refusal → Reason F

pub record RateLimitDecision (F : Type 0) : Type 0 where
  pub namespace : String
  pub result : LimitResult
  pub reason : Reason F
  pub tokens_remaining : F
  pub hourly_used : ℕ
  pub daily_used : ℕ

pub record Enforcer (F : Type 0) : Type 0 where
  pub buckets : Dict String (TokenBucket F)
  pub counters : Dict String (QuotaCounter F)
  pub ticks : ℕ

-- The bucket and the counter that one request works on, and the readings made so far.
pub record Slot (F : Type 0) : Type 0 where
  pub bucket : TokenBucket F
  pub counter : QuotaCounter F
  pub ticks : ℕ

module _ (f : Float) (time : ℕ → f.F) where
  open f use {F}

  -- A `RateLimitDecision(...)`, whose last three arguments read the clock once each.
  unfoldable pub decide : String → LimitResult → Reason F → Slot F → RateLimitDecision F × Slot F
  decide name result reason s =
      let (tokens, bucket) = available f (time s.ticks) s.bucket in
      let (hourly, once) = read_hourly f (time (s.ticks + 1)) s.counter in
      let (daily, counter) = read_daily f (time (s.ticks + 2)) once in
      (
        record {
          namespace = name;
          result = result;
          reason = reason;
          tokens_remaining = tokens;
          hourly_used = hourly;
          daily_used = daily;
        },
        record { bucket = bucket; counter = counter; ticks = s.ticks + 3 },
      )

  -- `if not bucket.consume(tokens)`
  unfoldable pub take_or_roll_back :
      String → NamespaceQuota F → ℤ → Slot F → RateLimitDecision F × Slot F
  take_or_roll_back name q tokens s =
      let (taken, bucket) = consume f (time s.ticks) tokens s.bucket in
      if taken
      then decide name allowed served (record s { bucket = bucket; ticks = s.ticks + 1 })
      else decide name rate_limited (limited q.burst q.rate_per_second)
          (record s { bucket = bucket; counter = decrement s.counter; ticks = s.ticks + 1 })

  abbrev pub after_quota :
      String → NamespaceQuota F → ℤ → Option Refusal → Slot F → RateLimitDecision F × Slot F
  after_quota name q tokens (some refusal) s = decide name quota_exceeded (refused refusal) s
  after_quota name q tokens none s = take_or_roll_back name q tokens s

  -- `check` below its lock.
  unfoldable pub serve : String → NamespaceQuota F → ℤ → Slot F → RateLimitDecision F × Slot F
  serve name q tokens s =
      let (refusal, counter) =
        check_and_increment f (time s.ticks) q.hourly_quota q.daily_quota s.counter in
      after_quota name q tokens refusal (record s { counter = counter; ticks = s.ticks + 1 })

  -- `_get_bucket` and `_get_counter`: a new object reads the clock once or twice.
  unfoldable pub bucket_of : NamespaceQuota F → Option (TokenBucket F) → ℕ → TokenBucket F × ℕ
  bucket_of q (some b) t = (b, t)
  bucket_of q none t = (new_bucket f q.rate_per_second q.burst (time t), t + 1)

  unfoldable pub counter_of : Option (QuotaCounter F) → ℕ → QuotaCounter F × ℕ
  counter_of (some c) t = (c, t)
  counter_of none t = (new_counter f (time t) (time (t + 1)), t + 2)

  unfoldable pub slot_of : String → NamespaceQuota F → Enforcer F → Slot F
  slot_of name q s =
      let (bucket, t) = bucket_of q (Dict.get name s.buckets) s.ticks in
      let (counter, t') = counter_of (Dict.get name s.counters) t in
      record { bucket = bucket; counter = counter; ticks = t' }

  unfoldable pub store_slot : String → Slot F → Enforcer F → Enforcer F
  store_slot name w s = record {
    buckets = Dict.put name w.bucket s.buckets;
    counters = Dict.put name w.counter s.counters;
    ticks = w.ticks;
  }

  module _ (blank : String → Bool) (config : RateLimitConfig F) where
    abbrev pub with_quota :
        String
        → ℤ
        → Result (List QuotaError) (NamespaceQuota F)
        → Enforcer F
        → Result (List QuotaError) (RateLimitDecision F) × Enforcer F
    with_quota name tokens (err es) s = (err es, s)
    with_quota name tokens (ok q) s =
        let (decision, w) = serve name q tokens (slot_of name q s) in
        (ok decision, store_slot name w s)

    -- `check`
    unfoldable pub check :
        String → ℤ → Enforcer F → Result (List QuotaError) (RateLimitDecision F) × Enforcer F
    check name tokens s = with_quota name tokens (get_quota f blank config name) s
