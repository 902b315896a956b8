-- ===== src/Tests/Limits.antt =====
-- Runs of the theorems about the rate limiter, with the integers as the clock and the tokens.
use sketchlog.Prelude.{◌≢◌}
use sketchlog.RateLimit.Quota.Report.{check_rate_limit_config-accepted}
use sketchlog.RateLimit.Quota.{check_rate_limit_config, fail, config_errors}
use sketchlog.Prelude.Key.{string_key}
use text.Mathlib.Text.{◌==◌ as str_eq}
use sketchlog.Prelude.{
  ℕ, zero, suc, ◌+◌, ◌≡◌, ◌≢◌, refl, ◌⊎◌, Bool, true, false, none, List, [], ◌∷◌, arith, String,
}
use sketchlog.Prelude.Int.{ℤ, pos, ltb_ℤ}
use sketchlog.Prelude.Dict
use sketchlog.Prelude.Exec.{ok, err}
use sketchlog.Prelude.Float.{of_int}
use sketchlog.RateLimit.Quota.{
  NamespaceQuota, RateLimitConfig, QuotaError, quota_errors, make_config, get_quota,
}
use sketchlog.RateLimit.Quota.Lookup.{
  first_named, last_wildcard, prefer, get_quota_lem, get_quota-raises, IsChecked,
}
use sketchlog.RateLimit.Bucket.{TokenBucket, new_bucket, refill, consume}
use sketchlog.RateLimit.Bucket.Bounds.{IsBounded, new_bucket-IsBounded, consume-IsBounded}
use sketchlog.RateLimit.Counter.{
  QuotaCounter, is_spent, increment, reset_if_needed, check_and_increment,
}
use sketchlog.RateLimit.Counter.Bounds.{Counted, IsRolled, check_and_increment_lem}
use sketchlog.RateLimit.Enforcer.{
  Enforcer, Slot, allowed, rate_limited, quota_exceeded, serve, check,
}
use sketchlog.RateLimit.Enforcer.Decide.{Read, serve_lem}
use sketchlog.RateLimit.Enforcer.Check.{IsValid, check-other, run, run_from_empty}
use sketchlog.Tests.Whole.{whole, whole_arith}

abbrev blank : String → Bool
blank name = str_eq name ""

abbrev prod : NamespaceQuota ℤ
prod = record {
  namespace = "prod";
  rate_per_second = pos 5;
  burst = pos 10;
  hourly_quota = pos 2;
  daily_quota = pos 4;
}

-- The defaults have an hourly quota above the daily one.
abbrev limits : RateLimitConfig ℤ
limits = record {
  quotas = prod ∷ [];
  default_rate_per_second = pos 1;
  default_burst = pos 3;
  default_hourly_quota = pos 9;
  default_daily_quota = pos 5;
}

prod-IsChecked : IsChecked whole blank prod
unfolding quota_errors ltb_ℤ
prod-IsChecked = refl

-- The clock goes back once.
abbrev clock : ℕ → ℤ
clock zero = pos 100
clock (suc n) = pos n

abbrev bucket : TokenBucket ℤ
bucket = record { rate = pos 5; burst = pos 10; tokens = pos 10; last = pos 0 }

abbrev counter : QuotaCounter ℤ
counter = record { hourly_count = 1; daily_count = 3; hour_start = pos 0; day_start = pos 0 }

abbrev slot : Slot ℤ
slot = record { bucket = bucket; counter = counter; ticks = 0 }

abbrev empty : Enforcer ℤ
empty = record { buckets = []; counters = []; ticks = 0 }

bucket-IsBounded : IsBounded whole bucket
unfolding new_bucket ltb_ℤ
bucket-IsBounded = new_bucket-IsBounded whole whole_arith (pos 5) 10 (pos 0) refl

get_quota_example :
    get_quota whole blank limits "prod"
    ≡ prefer whole blank limits "prod"
        (first_named whole "prod" limits.quotas)
        (last_wildcard whole limits.quotas none)
get_quota_example = get_quota_lem whole blank limits "prod"

get_quota-raises_example :
    (make_config whole blank limits ≡ ok limits)
    × ((es : List QuotaError) × (get_quota whole blank limits "other" ≡ err es))
get_quota-raises_example =
    get_quota-raises whole blank limits "other" 2 9 4 (unfold ltb_ℤ in refl) refl refl refl
      (omega arith) (unfold first_named in refl) (unfold last_wildcard in refl)

consume-IsBounded_example : IsBounded whole (consume whole (pos 7) (pos 4) bucket).1
consume-IsBounded_example =
    consume-IsBounded whole whole_arith (pos 7) (pos 4) bucket (unfold ltb_ℤ in refl)
      bucket-IsBounded

check_and_increment_example :
    (r : QuotaCounter ℤ) × IsRolled whole (pos 9) counter r
    × Counted (pos 2) (pos 4) r (check_and_increment whole (pos 9) (pos 2) (pos 4) counter)
check_and_increment_example = check_and_increment_lem whole (pos 9) (pos 2) (pos 4) counter

serve_example :
    let r = reset_if_needed whole (clock slot.ticks) slot.counter in
    let x = serve whole clock "prod" prod (pos 4) slot in
    let enough =
      whole.le (of_int whole (pos 4)) (refill whole (clock (slot.ticks + 1)) slot.bucket).tokens in
    let hour = is_spent prod.hourly_quota r.hourly_count in
    let day = is_spent prod.daily_quota r.daily_count in
    ((x.0.result ≡ quota_exceeded)
      × ((hour ≡ true) ⊎ (day ≡ true))
      × Read whole clock x.1.counter r)
    ⊎ ((x.0.result ≡ rate_limited)
        × (hour ≡ false)
        × (day ≡ false)
        × (enough ≡ false)
        × Read whole clock x.1.counter r)
    ⊎ ((x.0.result ≡ allowed)
        × (hour ≡ false)
        × (day ≡ false)
        × (enough ≡ true)
        × Read whole clock x.1.counter (increment r))
serve_example = serve_lem whole clock "prod" prod (pos 4) slot

check-other_example :
    (Dict.get "b" (check whole clock blank limits "prod" (pos 1) empty).1.buckets
      ≡ Dict.get "b" empty.buckets)
    × (Dict.get "b" (check whole clock blank limits "prod" (pos 1) empty).1.counters
        ≡ Dict.get "b" empty.counters)
check-other_example = check-other whole clock blank limits "prod" "b" (pos 1) empty (λ e. cc e)

run_from_empty_example :
    IsValid whole clock blank limits
      (run whole clock blank limits (("prod", pos 4) ∷ ("x", pos 1) ∷ ("prod", pos 9) ∷ []) empty)
run_from_empty_example =
    run_from_empty whole clock blank limits whole_arith (prod-IsChecked, tt)
      (("prod", pos 4) ∷ ("x", pos 1) ∷ ("prod", pos 9) ∷ [])
      (unfold ltb_ℤ in (refl, (refl, (refl, tt))))

check_rate_limit_config_example : (check_rate_limit_config whole limits).0 ≢ fail
unfolding ltb_ℤ make_config config_errors
check_rate_limit_config_example =
    check_rate_limit_config-accepted whole blank limits limits refl (prod-IsChecked, tt)
