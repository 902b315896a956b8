-- ===== src/Rbac/Report.antt =====
-- When `check_rbac` reports FAIL, and when PASS.
use sketchlog.Prelude.{==_iff}
use sketchlog.Prelude.{
  ℕ, String, ◌≡◌, refl, ◌⊎◌, inl, inr, ◌↔◌, Bool, true, false, not, ◌&&◌, ◌||◌, List, [], ◌∷◌, ◌++◌,
  arith, ltb, ◌==◌, if◌then◌else◌, length, Bool-cases,
}
use text.Mathlib.Text.{◌==◌ as str_eq}
use sketchlog.Rbac.{
  TokenGrant, RbacConfig, RbacIssue, disabled, no_grants, no_admin, no_key, short_key, weak_key,
  is_warning, any_warning, count_admins, Status, pass, warn, fail, note_if, key_issues, rbac_issues,
  rbac_status,
}

-- The status as a function of what it depends on.
status_from : Bool → Bool → Bool → List RbacIssue → Status
status_from on none_granted none_admin keys =
    let issues =
      note_if (not on) disabled
      ++ (note_if none_granted no_grants ++ (note_if (none_admin && on) no_admin ++ keys)) in
    if length issues == 0
    then pass
    else if any_warning issues && length issues == 1
    then warn
    else if not on || none_granted
    then fail
    else warn

-- The key gives rise to at most one issue, which is a warning.
abbrev IsKeyReport : List RbacIssue → Type 0
IsKeyReport keys = (keys ≡ []) ⊎ ((i : RbacIssue) × (is_warning i ≡ true) × (keys ≡ i ∷ []))

IsKeyReport-note_if : (b : Bool) → IsKeyReport (note_if b weak_key)
IsKeyReport-note_if true = inr (weak_key, refl, refl)
IsKeyReport-note_if false = inl refl

key_issues-IsKeyReport : (size : String → ℕ) (key : String) → IsKeyReport (key_issues size key)
unfolding key_issues
key_issues-IsKeyReport size key = elim (Bool-cases (str_eq key "")) [
  | inl empty ↦ rw empty (inr (no_key, refl, refl))
  | inr given ↦ elim (Bool-cases (ltb (size key) 16)) [
    | inl short ↦ rw (given, short) (inr (short_key, refl, refl))
    | inr long ↦ rw (given, long) (IsKeyReport-note_if _)
  ]
]

-- FAIL is for a configuration that is disabled or has no grants, which then has no admin either.
abbrev IsFailRule : Bool → Bool → Bool → List RbacIssue → Type 0
IsFailRule on none_granted none_admin keys =
    (none_granted ≡ true → none_admin ≡ true)
    → (status_from on none_granted none_admin keys ≡ fail) ↔ ((on ≡ false) ⊎ (none_granted ≡ true))

quiet-IsFailRule : (on none_granted none_admin : Bool) → IsFailRule on none_granted none_admin []
unfolding status_from
quiet-IsFailRule true true true = λ k. ((λ h. ground arith), (λ h. ground arith))
quiet-IsFailRule true true false = λ k. ((λ h. ground arith), (λ h. ground arith))
quiet-IsFailRule true false true = λ k. ((λ h. ground arith), (λ h. ground arith))
quiet-IsFailRule true false false = λ k. ((λ h. ground arith), (λ h. ground arith))
quiet-IsFailRule false true true = λ k. ((λ h. ground arith), (λ h. ground arith))
quiet-IsFailRule false true false = λ k. ((λ h. ground arith), (λ h. ground arith))
quiet-IsFailRule false false true = λ k. ((λ h. ground arith), (λ h. ground arith))
quiet-IsFailRule false false false = λ k. ((λ h. ground arith), (λ h. ground arith))

noisy-IsFailRule :
    (on none_granted none_admin : Bool) (i : RbacIssue)
    → is_warning i ≡ true
    → IsFailRule on none_granted none_admin (i ∷ [])
unfolding status_from
noisy-IsFailRule true true true i w = λ k. ((λ h. ground arith), (λ h. ground arith))
noisy-IsFailRule true true false i w = λ k. ((λ h. ground arith), (λ h. ground arith))
noisy-IsFailRule true false true i w = λ k. ((λ h. ground arith), (λ h. ground arith))
noisy-IsFailRule true false false i w = λ k. ((λ h. ground arith), (λ h. ground arith))
noisy-IsFailRule false true true i w = λ k. ((λ h. ground arith), (λ h. ground arith))
noisy-IsFailRule false true false i w = λ k. ((λ h. ground arith), (λ h. ground arith))
noisy-IsFailRule false false true i w = λ k. ((λ h. ground arith), (λ h. ground arith))
noisy-IsFailRule false false false i w = λ k. ((λ h. ground arith), (λ h. ground arith))

IsFailRule-IsKeyReport :
    (on none_granted none_admin : Bool) (keys : List RbacIssue)
    → IsKeyReport keys
    → IsFailRule on none_granted none_admin keys
IsFailRule-IsKeyReport on none_granted none_admin keys (inl none) =
    rw none (quiet-IsFailRule on none_granted none_admin)
IsFailRule-IsKeyReport on none_granted none_admin keys (inr (i, w, one)) =
    rw one (noisy-IsFailRule on none_granted none_admin i w)

no_admins :
    (grants : List TokenGrant) → (length grants == 0) ≡ true → (count_admins grants == 0) ≡ true
no_admins [] h = refl
no_admins (g ∷ grants) h = absurd (ground arith)

-- `check_rbac` reports FAIL exactly when access control is disabled or no token has a grant, and
-- not for a missing admin or a weak key alone.
pub rbac_status-fail :
    (size : String → ℕ) (c : RbacConfig)
    → (rbac_status size c ≡ fail) ↔ ((c.enabled ≡ false) ⊎ (length c.grants ≡ 0))
unfolding rbac_status rbac_issues status_from
rbac_status-fail size c =
    let rule =
      IsFailRule-IsKeyReport c.enabled (length c.grants == 0) (count_admins c.grants == 0)
        (key_issues size c.audit_hmac_key) (key_issues-IsKeyReport size c.audit_hmac_key)
        (no_admins c.grants) in
    let zero_iff = ==_iff (length c.grants) 0 in
    (
      (λ h. elim (rule.0 h) [ inl off ↦ inl off | inr none ↦ inr (zero_iff.0 none) ]),
      (λ h. rule.1 (elim h [ inl off ↦ inl off | inr none ↦ inr (zero_iff.1 none) ])),
    )
