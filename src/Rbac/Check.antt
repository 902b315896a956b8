-- ===== src/Rbac/Check.antt =====
-- What `RBACEnforcer.check` answers, and the audit event that it leaves on every branch.
use sketchlog.Prelude.{
  ℕ, ◌+◌, String, ◌≡◌, refl, ap, inl, inr, ◌↔◌, Bool, true, false, Option, none, some, List, [],
  ◌∷◌, map, Bool-cases,
}
use sketchlog.Rbac.Granted.{
  IsGranted, IsFirst-token_grant, token_grant-IsFirst, allows_namespace_lem, role_permits_lem,
}
use sketchlog.Rbac.{
  TokenGrant, RbacConfig, AuditLog, AuditEvent, AuditBase, AuditReason, Request, Role, Verdict,
  allow, deny, allows_namespace, has_permission, token_grant, compute_hmac, log, event_of,
  check_grant, check_token, check_access, rbac_disabled, unknown_token, namespace_not_allowed,
  permission_not_granted, granted,
}

abbrev pub answer_of : Verdict → Bool
answer_of allow = true
answer_of deny = false

module _ {T : Type 0} (time : ℕ → T) (sign : String → AuditBase T → String) where
  -- One event of a request, signed if there is a key, with the answer that was given.
  pub record IsAudited (config : RbacConfig) (r : Request) (s : AuditLog T) (x : Bool × AuditLog T)
      : Type 0 where
    pub event : AuditEvent T
    pub written : x.1 ≡ record { events = event ∷ s.events; ticks = s.ticks + 1 }
    pub of_token : event.base.token_id ≡ r.token_id
    pub of_action : event.base.action ≡ r.permission
    pub of_namespace : event.base.namespace ≡ r.namespace
    pub of_stream : event.base.stream ≡ r.stream
    pub signed : event.hmac_tag ≡ compute_hmac time sign config.audit_hmac_key event.base
    pub answered : x.0 ≡ answer_of event.base.result

  log-IsAudited :
      (config : RbacConfig) (r : Request) (verdict : Verdict) (reason : AuditReason)
      (role : Option Role) (s : AuditLog T)
      → IsAudited config r s (answer_of verdict, log time sign config r verdict reason role s)
  unfolding log event_of
  log-IsAudited config r verdict reason role s = record {
    event = event_of time sign config r verdict reason role s.ticks;
    written = refl;
    of_token = refl;
    of_action = refl;
    of_namespace = refl;
    of_stream = refl;
    signed = refl;
    answered = refl;
  }

  check_grant-IsAudited :
      (config : RbacConfig) (r : Request) (g : TokenGrant) (s : AuditLog T)
      → IsAudited config r s (check_grant time sign config r g s)
  unfolding check_grant
  check_grant-IsAudited config r g s = elim (Bool-cases (allows_namespace g r.namespace)) [
    | inr outside ↦ rw outside (log-IsAudited config r deny namespace_not_allowed (some g.role) s)
    | inl inside ↦ elim (Bool-cases (has_permission g r.permission)) [
      | inr without ↦
          rw (inside, without) (log-IsAudited config r deny permission_not_granted (some g.role) s)
      | inl permitted ↦
          rw (inside, permitted) (log-IsAudited config r allow granted (some g.role) s)
    ]
  ]

  -- Every call of `check` writes exactly one audit event, on every branch: the event names the
  -- request and the answer that the caller gets, and carries the HMAC of its fields if a key is set.
  pub check_access-IsAudited :
      (config : RbacConfig) (r : Request) (s : AuditLog T)
      → IsAudited config r s (check_access time sign config r s)
  unfolding check_access
  check_access-IsAudited config r s = elim (Bool-cases config.enabled) [
    | inr off ↦ simp off (log-IsAudited config r allow rbac_disabled none s)
    | inl on ↦ simp on (by_token (token_grant config.grants r.token_id))
  ]
    where
      by_token : (o : Option TokenGrant) → IsAudited config r s (check_token time sign config r o s)
      by_token none = log-IsAudited config r deny unknown_token none s
      by_token (some g) = check_grant-IsAudited config r g s

  check_grant_lem :
      (config : RbacConfig) (r : Request) (g : TokenGrant) (s : AuditLog T)
      → ((check_grant time sign config r g s).0 ≡ true)
        ↔ ((allows_namespace g r.namespace ≡ true) × (has_permission g r.permission ≡ true))
  unfolding check_grant
  check_grant_lem config r g s = elim (Bool-cases (allows_namespace g r.namespace)) [
    | inr outside ↦ rw outside ((λ h. cc h), (λ h. cc (h.0)))
    | inl inside ↦ elim (Bool-cases (has_permission g r.permission)) [
      | inr without ↦ rw (inside, without) ((λ h. cc h), (λ h. cc (h.1)))
      | inl permitted ↦ rw (inside, permitted) ((λ h. (refl, refl)), (λ h. refl))
    ]
  ]

  -- With access control enabled, `check` answers yes exactly when the first grant with the token's
  -- id covers the namespace (it lists the namespace or `*`, or it lists nothing and is an admin's)
  -- and its role may do what is asked (an admin everything, `ingest` and `read_write` ingest,
  -- `read` and `read_write` query).
  pub check_access_lem :
      (config : RbacConfig) (r : Request) (s : AuditLog T)
      → config.enabled ≡ true
      → ((check_access time sign config r s).0 ≡ true) ↔ IsGranted config r
  unfolding check_access
  check_access_lem config r s on = simp on (by_token (token_grant config.grants r.token_id) refl)
    where
      by_token :
          (o : Option TokenGrant)
          → token_grant config.grants r.token_id ≡ o
          → ((check_token time sign config r o s).0 ≡ true) ↔ IsGranted config r
      by_token none is =
          ((λ h. cc h), (λ h. cc (IsFirst-token_grant config.grants r.token_id h.0 h.1, is)))
      by_token (some g) is =
          let c = check_grant_lem config r g s in
          let inside = allows_namespace_lem g r.namespace in
          let permitted = role_permits_lem g.role r.permission in
          (
            (λ h. (
              g,
              token_grant-IsFirst config.grants r.token_id g is,
              inside.0 (c.0 h).0,
              permitted.0 (c.0 h).1,
            )),
            (λ h.
                let same : h.0 ≡ g =
                  cc (IsFirst-token_grant config.grants r.token_id h.0 h.1, is) in
                c.1 (inside.1 (rw same at h.2), permitted.1 (rw same at h.3))),
          )

  -- The answers to a sequence of requests, the latest first, and the audit log after it.
  pub run : RbacConfig → List Request → List Bool → AuditLog T → List Bool × AuditLog T
  run config [] answers s = (answers, s)
  run config (r ∷ requests) answers s =
      let (answer, s') = check_access time sign config r s in
      run config requests (answer ∷ answers) s'

  -- The answers that an audit log records.
  abbrev pub recorded : AuditLog T → List Bool
  recorded s = map (λ e. answer_of e.base.result) s.events

  -- The audit log of a sequence of requests records the answers that were given, one for each
  -- request and in their order, if it did so before.
  pub recorded-run :
      (config : RbacConfig) (requests : List Request) (answers : List Bool) (s : AuditLog T)
      → recorded s ≡ answers
      → recorded (run config requests answers s).1 ≡ (run config requests answers s).0
  unfolding run
  recorded-run config [] answers s h = h
  recorded-run config (r ∷ requests) answers s h =
      let a = check_access-IsAudited config r s in
      recorded-run config requests ((check_access time sign config r s).0 ∷ answers)
        (check_access time sign config r s).1
        (rw (a.written, a.answered) (ap (◌∷◌ (answer_of a.event.base.result)) h))
