-- ===== src/RateLimit/Quota.antt =====
-- `NamespaceQuota`, `RateLimitConfig` and their validation, the lookup of a quota, and the report
-- of `check_rate_limit_config`. `blank` is `not namespace.strip()`, a method of `str`.
pub mod Lookup
pub mod Report
use text.Mathlib.Text.{◌==◌ as str_eq}
use sketchlog.Prelude.{
  ℕ, zero, suc, ◌+◌, ◌*◌, String, ◌≡◌, Bool, true, false, not, ◌&&◌, ◌||◌, Option, none, some, List,
  [], ◌∷◌, ◌++◌, if◌then◌else◌,
}
use sketchlog.Prelude.Int.{ℤ, pos, negsuc, ltb_ℤ, ◌*ℤ◌}
use sketchlog.Prelude.Exec.{Result, ok, err, append_if, raise_errors}
use sketchlog.Prelude.Float.{Float, of_int}

-- The messages that the two `__post_init__` collect.
pub data QuotaError : Type 0 where
  empty_namespace bad_rate bad_burst bad_hourly bad_daily hourly_above_daily : QuotaError

pub record NamespaceQuota (F : Type 0) : Type 0 where
  pub namespace : String
  pub rate_per_second : F
  pub burst : ℤ
  pub hourly_quota : ℤ
  pub daily_quota : ℤ

pub record RateLimitConfig (F : Type 0) : Type 0 where
  pub quotas : List (NamespaceQuota F)
  pub default_rate_per_second : F
  pub default_burst : ℤ
  pub default_hourly_quota : ℤ
  pub default_daily_quota : ℤ

module _ (f : Float) (blank : String → Bool) where
  open f use {F, of_nat, lt, le}

  -- `NamespaceQuota.__post_init__`
  unfoldable pub quota_errors : NamespaceQuota F → List QuotaError
  quota_errors q =
      append_if (blank q.namespace) empty_namespace
      ++ (append_if (le q.rate_per_second (of_nat 0)) bad_rate
          ++ (append_if (ltb_ℤ q.burst (pos 1)) bad_burst
              ++ (append_if (ltb_ℤ q.hourly_quota (pos 0)) bad_hourly
                  ++ (append_if (ltb_ℤ q.daily_quota (pos 0)) bad_daily
                      ++ append_if
                          (ltb_ℤ (pos 0) q.hourly_quota
                            && ltb_ℤ (pos 0) q.daily_quota
                            && ltb_ℤ q.daily_quota q.hourly_quota)
                          hourly_above_daily))))

  unfoldable pub make_quota : NamespaceQuota F → Result (List QuotaError) (NamespaceQuota F)
  make_quota q = raise_errors (quota_errors q) q

  -- `RateLimitConfig.__post_init__`
  unfoldable pub config_errors : RateLimitConfig F → List QuotaError
  config_errors c =
      append_if (le c.default_rate_per_second (of_nat 0)) bad_rate
      ++ (append_if (ltb_ℤ c.default_burst (pos 1)) bad_burst
          ++ (append_if (ltb_ℤ c.default_hourly_quota (pos 0)) bad_hourly
              ++ append_if (ltb_ℤ c.default_daily_quota (pos 0)) bad_daily))

  unfoldable pub make_config : RateLimitConfig F → Result (List QuotaError) (RateLimitConfig F)
  make_config c = raise_errors (config_errors c) c

  -- The loop of `get_quota`: the exact match, and the last wildcard seen before the loop ended.
  unfoldable pub scan :
      String
      → List (NamespaceQuota F)
      → Option (NamespaceQuota F)
      → Option (NamespaceQuota F) × Option (NamespaceQuota F)
  scan namespace [] wildcard = (none, wildcard)
  scan namespace (q ∷ quotas) wildcard =
      let rest = scan namespace quotas (if str_eq q.namespace "*" then some q else wildcard) in
      if str_eq q.namespace namespace then (some q, wildcard) else rest

  abbrev pub default_quota : RateLimitConfig F → String → NamespaceQuota F
  default_quota c name = record {
    namespace = name;
    rate_per_second = c.default_rate_per_second;
    burst = c.default_burst;
    hourly_quota = c.default_hourly_quota;
    daily_quota = c.default_daily_quota;
  }

  abbrev pub choose :
      RateLimitConfig F
      → String
      → Option (NamespaceQuota F) × Option (NamespaceQuota F)
      → Result (List QuotaError) (NamespaceQuota F)
  choose c name (some exact, wildcard) = ok exact
  choose c name (none, some wildcard) = ok wildcard
  choose c name (none, none) = make_quota (default_quota c name)

  -- `get_quota`: the constructor of the fallback quota validates, so it may raise.
  unfoldable pub get_quota :
      RateLimitConfig F → String → Result (List QuotaError) (NamespaceQuota F)
  get_quota c name = choose c name (scan name c.quotas none)

-- The lines of the report of `check_rate_limit_config`; the named ones carry their namespace.
pub data Issue : Type 0 where
  fail_default_rate warn_default_rate fail_default_burst fail_default_hourly : Issue
  fail_default_daily : Issue
  fail_rate warn_rate warn_burst warn_daily : String → Issue

-- `i.startswith("FAIL")`
abbrev pub is_fail : Issue → Bool
is_fail fail_default_rate = true
is_fail fail_default_burst = true
is_fail fail_default_hourly = true
is_fail fail_default_daily = true
is_fail (fail_rate n) = true
is_fail _ = false

pub data Verdict : Type 0 where
  pass warn fail : Verdict

abbrev pub any_fail : List Issue → Bool
any_fail [] = false
any_fail (i ∷ is) = is_fail i || any_fail is

-- `"FAIL" if fails else ("WARN" if warns else "PASS")`: an issue that is no FAIL is a WARN.
abbrev pub verdict : List Issue → Verdict
verdict [] = pass
verdict (i ∷ is) = if any_fail (i ∷ is) then fail else warn

module _ (f : Float) where
  open f use {F, of_nat, lt, le}

  -- `burst < rate_per_second` compares an `int` with a `float`.
  unfoldable pub quota_issues : NamespaceQuota F → List Issue
  unfolding ◌*ℤ◌
  quota_issues q =
      (if le q.rate_per_second (of_nat 0)
        then fail_rate q.namespace ∷ []
        else append_if (lt q.rate_per_second (of_nat 1)) (warn_rate q.namespace))
      ++ (append_if (lt (of_int f q.burst) q.rate_per_second) (warn_burst q.namespace)
          ++ append_if
              (ltb_ℤ (pos 0) q.hourly_quota
                && ltb_ℤ (pos 0) q.daily_quota
                && ltb_ℤ (q.hourly_quota *ℤ pos 24) q.daily_quota)
              (warn_daily q.namespace))

  unfoldable pub all_issues : List (NamespaceQuota F) → List Issue
  all_issues [] = []
  all_issues (q ∷ qs) = quota_issues q ++ all_issues qs

  unfoldable pub config_issues : RateLimitConfig F → List Issue
  config_issues c =
      (if le c.default_rate_per_second (of_nat 0)
        then fail_default_rate ∷ []
        else append_if (lt c.default_rate_per_second (of_nat 1)) warn_default_rate)
      ++ (append_if (ltb_ℤ c.default_burst (pos 1)) fail_default_burst
          ++ (append_if (ltb_ℤ c.default_hourly_quota (pos 0)) fail_default_hourly
              ++ (append_if (ltb_ℤ c.default_daily_quota (pos 0)) fail_default_daily
                  ++ all_issues c.quotas)))

  unfoldable pub check_rate_limit_config : RateLimitConfig F → Verdict × List Issue
  check_rate_limit_config c = (verdict (config_issues c), config_issues c)
