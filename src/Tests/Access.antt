-- ===== src/Tests/Access.antt =====
-- Runs of the theorems about access control.
use sketchlog.Prelude.{ℕ, String, ◌≡◌, refl, ◌↔◌, true, none, [], ◌∷◌}
use sketchlog.Rbac.{
  RbacConfig, AuditBase, AuditLog, Request, may_query, may_admin, admin, read, check_access,
}
use sketchlog.Rbac.Granted.{IsGranted}
use sketchlog.Rbac.Check.{
  IsAudited, check_access-IsAudited, check_access_lem, run, recorded, recorded-run,
}

abbrev config : RbacConfig
config = record {
  grants =
      record { token_id = "root"; role = admin; namespaces = [] }
      ∷ record { token_id = "viewer"; role = read; namespaces = "prod" ∷ [] }
      ∷ [];
  audit_file = none;
  audit_hmac_key = "0123456789abcdef";
  enabled = true;
}

abbrev query : Request
query = record { token_id = "viewer"; permission = may_query; namespace = "prod"; stream = "api" }

abbrev takeover : Request
takeover = record query { permission = may_admin }

abbrev clock : ℕ → ℕ
clock n = n

abbrev sign : String → AuditBase ℕ → String
sign key base = key

abbrev unwritten : AuditLog ℕ
unwritten = record { events = []; ticks = 0 }

check_access-IsAudited_example :
    IsAudited clock sign config takeover unwritten
      (check_access clock sign config takeover unwritten)
check_access-IsAudited_example = check_access-IsAudited clock sign config takeover unwritten

check_access_example :
    ((check_access clock sign config query unwritten).0 ≡ true) ↔ IsGranted config query
check_access_example = check_access_lem clock sign config query unwritten refl

recorded-run_example :
    recorded clock sign (run clock sign config (query ∷ takeover ∷ []) [] unwritten).1
    ≡ (run clock sign config (query ∷ takeover ∷ []) [] unwritten).0
recorded-run_example = recorded-run clock sign config (query ∷ takeover ∷ []) [] unwritten refl
