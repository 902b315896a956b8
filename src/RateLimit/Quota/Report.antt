-- ===== src/RateLimit/Quota/Report.antt =====
-- The report of `check_rate_limit_config` on configurations that their constructors accept.
use sketchlog.Prelude.Int.{◌*ℤ◌}
use sketchlog.RateLimit.Quota.{warn_rate, warn_burst, warn_daily}
use sketchlog.Prelude.{
  String, ◌≡◌, ◌≢◌, refl, Bool, true, false, ◌&&◌, List, [], ◌∷◌, ◌++◌, arith, All,
}
use sketchlog.Prelude.Int.{pos, ltb_ℤ}
use sketchlog.Prelude.Exec.{ok, append_if, raise_errors, no_error}
use sketchlog.Prelude.Float.{Float, of_int}
use sketchlog.RateLimit.Quota.{
  NamespaceQuota, RateLimitConfig, QuotaError, bad_rate, bad_burst, bad_hourly, bad_daily,
  config_errors, make_config, Issue, warn_default_rate, is_fail, any_fail, fail, verdict,
  quota_issues, all_issues, config_issues, check_rate_limit_config,
}
use sketchlog.RateLimit.Quota.Lookup.{IsChecked, positive_of_checked}

any_fail-append :
    (is js : List Issue) → any_fail is ≡ false → any_fail js ≡ false → any_fail (is ++ js) ≡ false
any_fail-append [] js h k = k
any_fail-append (i ∷ is) js h k = ground (arith, any_fail-append is js (ground arith) k)

any_fail-append_if : (b : Bool) (i : Issue) → is_fail i ≡ false → any_fail (append_if b i) ≡ false
any_fail-append_if true i h = ground arith
any_fail-append_if false i h = refl

verdict-any_fail : (is : List Issue) → any_fail is ≡ false → verdict is ≢ fail
verdict-any_fail [] h e = cc e
verdict-any_fail (i ∷ is) h e = ground arith

module _ (f : Float) (blank : String → Bool) where
  open f use {F, of_nat, lt, le}

  quota_issues-any_fail :
      (q : NamespaceQuota F) → IsChecked f blank q → any_fail (quota_issues f q) ≡ false
  unfolding quota_issues
  quota_issues-any_fail q h =
      let (rated, _) = positive_of_checked f blank q h in
      let low = append_if (lt q.rate_per_second (of_nat 1)) (warn_rate q.namespace) in
      let small = append_if (lt (of_int f q.burst) q.rate_per_second) (warn_burst q.namespace) in
      let unreachable =
        ltb_ℤ (pos 0) q.hourly_quota
        && ltb_ℤ (pos 0) q.daily_quota
        && ltb_ℤ (q.hourly_quota *ℤ pos 24) q.daily_quota in
      rw rated (
        any_fail-append low (small ++ append_if unreachable (warn_daily q.namespace))
          (any_fail-append_if (lt q.rate_per_second (of_nat 1)) (warn_rate q.namespace) refl)
          (any_fail-append small (append_if unreachable (warn_daily q.namespace))
            (any_fail-append_if (lt (of_int f q.burst) q.rate_per_second) (warn_burst q.namespace)
              refl)
            (any_fail-append_if unreachable (warn_daily q.namespace) refl)))

  all_issues-any_fail :
      (quotas : List (NamespaceQuota F))
      → All (IsChecked f blank) quotas
      → any_fail (all_issues f quotas) ≡ false
  unfolding all_issues
  all_issues-any_fail [] h = refl
  all_issues-any_fail (q ∷ quotas) h =
      any_fail-append (quota_issues f q) (all_issues f quotas) (quota_issues-any_fail q h.0)
        (all_issues-any_fail quotas h.1)

  accepted :
      (c c' : RateLimitConfig F) → make_config f blank c ≡ ok c' → config_errors f blank c ≡ []
  unfolding make_config
  accepted c c' h = go (config_errors f blank c) h
    where
      go : (es : List QuotaError) → raise_errors es c ≡ ok c' → es ≡ []
      go [] h = refl
      go (e ∷ es) h = cc

  -- `check_rate_limit_config` never reports FAIL on a configuration that its constructor accepts,
  -- if its quotas have passed the validation of `NamespaceQuota`.
  pub check_rate_limit_config-accepted :
      (c c' : RateLimitConfig F)
      → make_config f blank c ≡ ok c'
      → All (IsChecked f blank) c.quotas
      → (check_rate_limit_config f c).0 ≢ fail
  unfolding check_rate_limit_config
  check_rate_limit_config-accepted c c' h checked =
      verdict-any_fail (config_issues f c) (clean (unfold config_errors in accepted c c' h))
    where
      clean :
          append_if (le c.default_rate_per_second (of_nat 0)) bad_rate
              ++ (append_if (ltb_ℤ c.default_burst (pos 1)) bad_burst
                  ++ (append_if (ltb_ℤ c.default_hourly_quota (pos 0)) bad_hourly
                      ++ append_if (ltb_ℤ c.default_daily_quota (pos 0)) bad_daily))
            ≡ []
          → any_fail (config_issues f c) ≡ false
      clean e =
          let rest = all_issues-any_fail c.quotas checked in
          let (rated, e₁) = no_error (le c.default_rate_per_second (of_nat 0)) _ _ e in
          let (burst, e₂) = no_error (ltb_ℤ c.default_burst (pos 1)) _ _ e₁ in
          let (hour, e₃) = no_error (ltb_ℤ c.default_hourly_quota (pos 0)) _ _ e₂ in
          let day : ltb_ℤ c.default_daily_quota (pos 0) ≡ false = ground arith in
          let low = lt c.default_rate_per_second (of_nat 1) in
          unfold config_issues in
          rw (rated, burst, hour, day)
            (any_fail-append (append_if low warn_default_rate) (all_issues f c.quotas)
              (any_fail-append_if low warn_default_rate refl) rest)
