-- ===== src/Rbac.antt =====
-- rbac.py: roles, token grants, the audited check and the report on a configuration.
pub mod Granted
pub mod Check
pub mod Report
use text.Mathlib.Text.{◌==◌ as str_eq}
use sketchlog.Prelude.{
  ℕ, zero, suc, ◌+◌, String, ◌≡◌, Bool, true, false, not, ◌&&◌, ◌||◌, Option, none, some, List, [],
  ◌∷◌, ◌++◌, arith, ltb, ◌==◌, if◌then◌else◌, length,
}
use sketchlog.Prelude.Exec.{Result, ok, err}

pub data Role : Type 0 where
  admin ingest read read_write : Role

pub data Permission : Type 0 where
  may_ingest may_query may_admin : Permission

-- `_ROLE_PERMISSIONS`, as the test `permission in _ROLE_PERMISSIONS.get(role)`.
unfoldable pub role_permits : Role → Permission → Bool
role_permits admin permission = true
role_permits ingest may_ingest = true
role_permits read may_query = true
role_permits read_write may_ingest = true
role_permits read_write may_query = true
role_permits _ _ = false

pub record TokenGrant : Type 0 where
  pub token_id : String
  pub role : Role
  pub namespaces : List String

pub data GrantError : Type 0 where
  empty_token : GrantError

-- `TokenGrant.__post_init__` on arguments of the declared types; `blank` is `not s.strip()`.
unfoldable pub make_grant : (String → Bool) → TokenGrant → Result GrantError TokenGrant
make_grant blank g = if blank g.token_id then err empty_token else ok g

abbrev pub is_admin : Role → Bool
is_admin admin = true
is_admin _ = false

-- `namespace in self.namespaces`
unfoldable pub listed : String → List String → Bool
listed name [] = false
listed name (x ∷ xs) = str_eq x name || listed name xs

unfoldable pub allows_namespace : TokenGrant → String → Bool
allows_namespace g name =
    if length g.namespaces == 0
    then is_admin g.role
    else listed name g.namespaces || listed "*" g.namespaces

abbrev pub has_permission : TokenGrant → Permission → Bool
has_permission g permission = role_permits g.role permission

pub record RbacConfig : Type 0 where
  pub grants : List TokenGrant
  pub audit_file : Option String
  pub audit_hmac_key : String
  pub enabled : Bool

unfoldable pub token_grant : List TokenGrant → String → Option TokenGrant
token_grant [] token = none
token_grant (g ∷ grants) token =
    if str_eq g.token_id token then some g else token_grant grants token

pub data Verdict : Type 0 where
  allow deny : Verdict

-- The reasons of the audit events: `rbac_disabled`, `unknown_token`, and so on.
pub data AuditReason : Type 0 where
  rbac_disabled unknown_token namespace_not_allowed permission_not_granted granted : AuditReason

-- An `AuditEvent` without its tag: the fields that the tag signs.
pub record AuditBase (T : Type 0) : Type 0 where
  pub ts : T
  pub token_id : String
  pub action : Permission
  pub namespace : String
  pub stream : String
  pub result : Verdict
  pub reason : AuditReason
  pub role : Option Role

pub record AuditEvent (T : Type 0) : Type 0 where
  pub base : AuditBase T
  pub hmac_tag : Option String

-- The events that were written, the latest first, and the readings of the clock so far.
pub record AuditLog (T : Type 0) : Type 0 where
  pub events : List (AuditEvent T)
  pub ticks : ℕ

-- One request to the enforcer.
pub record Request : Type 0 where
  pub token_id : String
  pub permission : Permission
  pub namespace : String
  pub stream : String

-- `time n` is the n-th reading of the clock, and `sign key` is the HMAC of the JSON text of an event.
module _ {T : Type 0} (time : ℕ → T) (sign : String → AuditBase T → String) where
  -- `_compute_hmac`: an empty key signs nothing.
  abbrev pub compute_hmac : String → AuditBase T → Option String
  compute_hmac key base = if str_eq key "" then none else some (sign key base)

  -- The event that `AuditLogger.log` builds.
  unfoldable pub event_of :
      RbacConfig → Request → Verdict → AuditReason → Option Role → ℕ → AuditEvent T
  event_of config r result reason role tick =
      let base : AuditBase T = record {
        ts = time tick;
        token_id = r.token_id;
        action = r.permission;
        namespace = r.namespace;
        stream = r.stream;
        result = result;
        reason = reason;
        role = role;
      } in
      record { base = base; hmac_tag = compute_hmac config.audit_hmac_key base }

  -- `AuditLogger.log`
  unfoldable pub log :
      RbacConfig → Request → Verdict → AuditReason → Option Role → AuditLog T → AuditLog T
  log config r result reason role s = record {
    events = event_of config r result reason role s.ticks ∷ s.events;
    ticks = s.ticks + 1;
  }

  -- `RBACEnforcer.check` once the token has a grant.
  unfoldable pub check_grant : RbacConfig → Request → TokenGrant → AuditLog T → Bool × AuditLog T
  check_grant config r g s =
      if not (allows_namespace g r.namespace)
      then (false, log config r deny namespace_not_allowed (some g.role) s)
      else if not (has_permission g r.permission)
      then (false, log config r deny permission_not_granted (some g.role) s)
      else (true, log config r allow granted (some g.role) s)

  abbrev pub check_token : RbacConfig → Request → Option TokenGrant → AuditLog T → Bool × AuditLog T
  check_token config r none s = (false, log config r deny unknown_token none s)
  check_token config r (some g) s = check_grant config r g s

  -- `RBACEnforcer.check`
  unfoldable pub check_access : RbacConfig → Request → AuditLog T → Bool × AuditLog T
  check_access config r s =
      if not config.enabled
      then (true, log config r allow rbac_disabled none s)
      else check_token config r (token_grant config.grants r.token_id) s

-- The issues of `check_rbac`; the last three start with WARN.
pub data RbacIssue : Type 0 where
  disabled no_grants no_admin no_key short_key weak_key : RbacIssue

-- `i.startswith("WARN")`
abbrev pub is_warning : RbacIssue → Bool
is_warning no_key = true
is_warning short_key = true
is_warning weak_key = true
is_warning _ = false

abbrev pub any_warning : List RbacIssue → Bool
any_warning [] = false
any_warning (i ∷ is) = is_warning i || any_warning is

abbrev pub count_admins : List TokenGrant → ℕ
count_admins [] = 0
count_admins (g ∷ grants) =
    let rest = count_admins grants in if is_admin g.role then rest + 1 else rest

pub data Status : Type 0 where
  pass warn fail : Status

abbrev pub note_if : Bool → RbacIssue → List RbacIssue
note_if true i = i ∷ []
note_if false i = []

-- `size` is `len` of a `str`.
module _ (size : String → ℕ) where
  unfoldable pub key_issues : String → List RbacIssue
  key_issues key =
      if str_eq key ""
      then no_key ∷ []
      else if ltb (size key) 16
      then short_key ∷ []
      else note_if
          (listed key ("demo-hmac-key-change-in-production" ∷ "changeme" ∷ "secret" ∷ "test" ∷ []))
          weak_key

  unfoldable pub rbac_issues : RbacConfig → List RbacIssue
  rbac_issues c =
      note_if (not c.enabled) disabled
      ++ (note_if (length c.grants == 0) no_grants
          ++ (note_if (count_admins c.grants == 0 && c.enabled) no_admin
              ++ key_issues c.audit_hmac_key))

  -- The last branch of the status.
  abbrev pub severe : RbacConfig → Status
  severe c = if not c.enabled || length c.grants == 0 then fail else warn

  unfoldable pub rbac_status : RbacConfig → Status
  rbac_status c =
      let issues = rbac_issues c in
      if length issues == 0
      then pass
      else if any_warning issues && length issues == 1
      then warn
      else severe c
