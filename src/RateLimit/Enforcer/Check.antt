-- ===== src/RateLimit/Enforcer/Check.antt =====
-- `check` over the whole registry: requests of one namespace leave the others alone, and after any
-- requests for numbers of tokens that are not negative every bucket is within its burst and every
-- counter within its quotas.
use sketchlog.Prelude.{All}
use sketchlog.RateLimit.Quota.Lookup.{IsChecked, get_quota-IsChecked, positive_of_checked}
use sketchlog.Prelude.{
  ℕ, String, ◌≡◌, ◌≢◌, refl, inl, inr, Bool, false, Option, none, some, List, [], ◌∷◌, arith,
  Bool-cases,
}
use sketchlog.Prelude.Int.{ℤ, pos, ltb_ℤ}
use sketchlog.Prelude.Key.{string_key, ◌==◌}
use sketchlog.Prelude.Dict
use sketchlog.Prelude.Exec.{Result, ok, err}
use sketchlog.Prelude.Float.{Float, FloatArith}
use sketchlog.RateLimit.Quota.{NamespaceQuota, RateLimitConfig, QuotaError, get_quota}
use sketchlog.RateLimit.Bucket.{TokenBucket}
use sketchlog.RateLimit.Bucket.Bounds.{IsBounded, new_bucket-IsBounded}
use sketchlog.RateLimit.Counter.{QuotaCounter, new_counter}
use sketchlog.RateLimit.Counter.Bounds.{IsWithin, Within-zero}
use sketchlog.RateLimit.Enforcer.{
  Enforcer, Slot, slot_of, bucket_of, counter_of, store_slot, with_quota, check,
}
use sketchlog.RateLimit.Enforcer.Decide.{serve-IsWithin, serve-IsBounded}

module _ (f : Float) (time : ℕ → f.F) (blank : String → Bool) (config : RateLimitConfig f.F) where
  open f use {F}

  -- A request of one namespace changes neither the bucket nor the counter of another one.
  pub check-other :
      (name other : String) (tokens : ℤ) (s : Enforcer F)
      → name ≢ other
      → (Dict.get other (check f time blank config name tokens s).1.buckets
          ≡ Dict.get other s.buckets)
        × (Dict.get other (check f time blank config name tokens s).1.counters
            ≡ Dict.get other s.counters)
  unfolding check
  check-other name other tokens s ne = go (get_quota f blank config name)
    where
      go :
          (r : Result (List QuotaError) (NamespaceQuota F))
          → (Dict.get other (with_quota f time blank config name tokens r s).1.buckets
              ≡ Dict.get other s.buckets)
            × (Dict.get other (with_quota f time blank config name tokens r s).1.counters
                ≡ Dict.get other s.counters)
      go (err es) = (refl, refl)
      go (ok q) =
          unfold store_slot in
          (Dict.get-put_ne name other _ s.buckets ne, Dict.get-put_ne name other _ s.counters ne)

  pub record IsValid (s : Enforcer F) : Type 0 where
    pub bounded :
        (name : String) (b : TokenBucket F) → Dict.get name s.buckets ≡ some b → IsBounded f b
    pub within :
        (name : String) (q : NamespaceQuota F) (c : QuotaCounter F)
        → get_quota f blank config name ≡ ok q
        → Dict.get name s.counters ≡ some c
        → IsWithin q.hourly_quota q.daily_quota c

  -- The state after a sequence of requests, each for a number of tokens.
  pub run : List (String × ℤ) → Enforcer F → Enforcer F
  run [] s = s
  run ((name, tokens) ∷ requests) s = run requests (check f time blank config name tokens s).1

  -- No request is for a negative number of tokens, which `check` itself does not refuse.
  abbrev pub IsAsked : String × ℤ → Type 0
  IsAsked r = ltb_ℤ r.1 (pos 0) ≡ false

  module _ (laws : FloatArith f) (checked : All (IsChecked f blank) config.quotas) where
    slot-IsBounded :
        (name : String) (q : NamespaceQuota F) (s : Enforcer F)
        → get_quota f blank config name ≡ ok q
        → IsValid s
        → IsBounded f (slot_of f time name q s).bucket
    unfolding slot_of
    slot-IsBounded name q s e v = go (Dict.get name s.buckets) refl
      where
        go :
            (o : Option (TokenBucket F))
            → Dict.get name s.buckets ≡ o
            → IsBounded f (bucket_of f time q o s.ticks).0
        go (some b) known = unfold bucket_of in v.bounded name b known
        go none known =
            let (rated, (n, sized)) =
              positive_of_checked f blank q (get_quota-IsChecked f blank config name q checked e) in
            unfold bucket_of in rw sized (new_bucket-IsBounded f laws q.rate_per_second n _ rated)

    slot-IsWithin :
        (name : String) (q : NamespaceQuota F) (s : Enforcer F)
        → get_quota f blank config name ≡ ok q
        → IsValid s
        → IsWithin q.hourly_quota q.daily_quota (slot_of f time name q s).counter
    unfolding slot_of
    slot-IsWithin name q s e v = go (Dict.get name s.counters) refl _
      where
        go :
            (o : Option (QuotaCounter F))
            → Dict.get name s.counters ≡ o
            → (t : ℕ) → IsWithin q.hourly_quota q.daily_quota (counter_of f time o t).0
        go (some c) known t = unfold counter_of in v.within name q c e known
        go none known t =
            unfold counter_of new_counter in (Within-zero q.hourly_quota, Within-zero q.daily_quota)

    store-IsValid :
        (name : String) (q : NamespaceQuota F) (w : Slot F) (s : Enforcer F)
        → get_quota f blank config name ≡ ok q
        → IsBounded f w.bucket
        → IsWithin q.hourly_quota q.daily_quota w.counter
        → IsValid s
        → IsValid (store_slot f time name w s)
    unfolding store_slot
    store-IsValid name q w s e bounded within v = record {
      bounded = λ other b known. elim (Bool-cases (name == other)) [
        | inl same ↦
            let is : w.bucket ≡ b = ground (arith, Dict.get-put name other w.bucket s.buckets) in
            rw (← is) bounded
        | inr differs ↦
            v.bounded other b (rw (Dict.get-put name other w.bucket s.buckets, differs) at known)
      ];
      within = λ other q' c e' known. elim (Bool-cases (name == other)) [
        | inl same ↦
            let n : name ≡ other = (string_key.beq_iff name other).0 same in
            let e'' : get_quota f blank config name ≡ ok q' = rw n e' in
            let is_q : q ≡ q' = cc in
            let is_c : w.counter ≡ c =
              ground (arith, Dict.get-put name other w.counter s.counters) in
            rw (← is_q, ← is_c) within
        | inr differs ↦
            v.within other q' c e'
              (rw (Dict.get-put name other w.counter s.counters, differs) at known)
      ];
    }

    -- A request for a number of tokens that is not negative keeps every bucket within its burst and every counter within
    -- the quotas of its namespace, also when the lookup of the quota raises.
    pub check-IsValid :
        (name : String) (tokens : ℤ) (s : Enforcer F)
        → ltb_ℤ tokens (pos 0) ≡ false
        → IsValid s
        → IsValid (check f time blank config name tokens s).1
    unfolding check
    check-IsValid name tokens s given v = go (get_quota f blank config name) refl
      where
        go :
            (r : Result (List QuotaError) (NamespaceQuota F))
            → get_quota f blank config name ≡ r
            → IsValid (with_quota f time blank config name tokens r s).1
        go (err es) e = v
        go (ok q) e =
            store-IsValid name q _ s e
              (serve-IsBounded f time laws name q tokens (slot_of f time name q s) given
                (slot-IsBounded name q s e v))
              (serve-IsWithin f time name q tokens (slot_of f time name q s)
                (slot-IsWithin name q s e v))
              v

    run-IsValid :
        (requests : List (String × ℤ)) (s : Enforcer F)
        → All IsAsked requests
        → IsValid s
        → IsValid (run requests s)
    unfolding run
    run-IsValid [] s asked v = v
    run-IsValid ((name, tokens) ∷ requests) s asked v =
        run-IsValid requests _ asked.1 (check-IsValid name tokens s asked.0 v)

    -- From the empty registry, after any requests for numbers of tokens that are not negative and
    -- whatever the clock shows, every bucket is within its burst and every counter within the quotas of its
    -- namespace, if the quotas of the configuration have passed the validation of
    -- `NamespaceQuota`.
    pub run_from_empty :
        (requests : List (String × ℤ))
        → All IsAsked requests
        → IsValid (run requests (record { buckets = []; counters = []; ticks = 0 }))
    run_from_empty requests asked =
        run-IsValid requests _ asked
          (unfold Dict.get in record { bounded = λ n b h. cc; within = λ n q c e h. cc })
