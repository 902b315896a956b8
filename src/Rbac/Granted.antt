-- ===== src/Rbac/Granted.antt =====
-- What access control is to grant, as propositions: the grant that counts for a token, what a grant
-- covers and what a role may do; and the Boolean tests of the code against them.
use text.Mathlib.Text.{◌==◌ as str_eq}
use text.Mathlib.TextEquality.{eq_iff}
use sketchlog.Prelude.{
  String, ◌≡◌, ◌≢◌, refl, ap, sym, ◌∙◌, ◌⊎◌, inl, inr, ◌↔◌, Bool, true, false, ◌||◌, some, List,
  length, ◌==◌, [], ◌∷◌, ◌++◌, arith, All, Bool-cases, if◌then◌else◌,
}
use sketchlog.Rbac.{
  Role, admin, ingest, read, read_write, Permission, may_ingest, may_query, may_admin, TokenGrant,
  RbacConfig, Request, role_permits, listed, allows_namespace, token_grant, is_admin,
}

-- The first grant of a list with a token: the grants before it are for other tokens.
abbrev pub IsFirst : List TokenGrant → String → TokenGrant → Type 0
IsFirst grants token g =
    (before : List TokenGrant) × (after : List TokenGrant) × (grants ≡ before ++ (g ∷ after))
    × (g.token_id ≡ token)
    × All (λ h. h.token_id ≢ token) before

-- A name is in a list.
abbrev pub IsAmong : String → List String → Type 0
IsAmong name [] = ⊥
IsAmong name (x ∷ xs) = (x ≡ name) ⊎ IsAmong name xs

-- A grant covers the namespaces that it lists, and all of them if it lists `*`, or if it is the
-- grant of an admin and lists nothing.
abbrev pub IsCovered : TokenGrant → String → Type 0
IsCovered g name =
    ((g.namespaces ≡ []) × (g.role ≡ admin)) ⊎ IsAmong name g.namespaces ⊎ IsAmong "*" g.namespaces

-- An admin may do everything, the other roles may ingest, query or both.
abbrev pub IsPermitted : Role → Permission → Type 0
IsPermitted role permission =
    (role ≡ admin)
    ⊎ ((permission ≡ may_ingest) × ((role ≡ ingest) ⊎ (role ≡ read_write)))
    ⊎ ((permission ≡ may_query) × ((role ≡ read) ⊎ (role ≡ read_write)))

-- The first grant of the token covers the namespace, and its role may do what is asked.
abbrev pub IsGranted : RbacConfig → Request → Type 0
IsGranted config r =
    (g : TokenGrant) × IsFirst config.grants r.token_id g
    × IsCovered g r.namespace
    × IsPermitted g.role r.permission

pub role_permits_lem :
    (role : Role) (permission : Permission)
    → (role_permits role permission ≡ true) ↔ IsPermitted role permission
unfolding role_permits
role_permits_lem admin permission = ((λ h. inl refl), (λ h. refl))
role_permits_lem ingest may_ingest = ((λ h. inr (inl (refl, inl refl))), (λ h. refl))
role_permits_lem ingest may_query = ground arith
role_permits_lem ingest may_admin = ground arith
role_permits_lem read may_ingest = ground arith
role_permits_lem read may_query = ((λ h. inr (inr (refl, inl refl))), (λ h. refl))
role_permits_lem read may_admin = ground arith
role_permits_lem read_write may_ingest = ((λ h. inr (inl (refl, inr refl))), (λ h. refl))
role_permits_lem read_write may_query = ((λ h. inr (inr (refl, inr refl))), (λ h. refl))
role_permits_lem read_write may_admin = ground arith

listed_lem : (name : String) (xs : List String) → (listed name xs ≡ true) ↔ IsAmong name xs
unfolding listed
listed_lem name [] = ((λ h. cc h), (λ h. absurd h))
listed_lem name (x ∷ xs) = elim (Bool-cases (str_eq x name)) [
  | inl here ↦ rw here ((λ h. inl ((eq_iff x name).0 here)), (λ h. refl))
  | inr other ↦
      let rest = listed_lem name xs in
      rw other (
        (λ h. inr (rest.0 h)),
        (λ h. elim h [ inl e ↦ cc ((eq_iff x name).1 e, other) | inr later ↦ rest.1 later ]),
      )
]

admin_lem : (role : Role) → (is_admin role ≡ true) ↔ (role ≡ admin)
admin_lem admin = ((λ h. refl), (λ h. refl))
admin_lem ingest = ground arith
admin_lem read = ground arith
admin_lem read_write = ground arith

or_lem : (a b : Bool) → ((a || b) ≡ true) ↔ ((a ≡ true) ⊎ (b ≡ true))
or_lem true b = ((λ h. inl refl), (λ h. refl))
or_lem false b = ((λ h. inr h), (λ h. elim h [ inl e ↦ cc e | inr e ↦ e ]))

covers :
    (role : Role) (names : List String) (name : String)
    → ((if length names == 0 then is_admin role else listed name names || listed "*" names) ≡ true)
      ↔ (((names ≡ []) × (role ≡ admin)) ⊎ IsAmong name names ⊎ IsAmong "*" names)
covers role [] name =
    let a = admin_lem role in
    (
      (λ h. inl (refl, a.0 h)),
      (λ h. elim h [ inl e ↦ a.1 e.1 | inr (inl e) ↦ absurd e | inr (inr e) ↦ absurd e ]),
    )
covers role (x ∷ xs) name =
    let o = or_lem (listed name (x ∷ xs)) (listed "*" (x ∷ xs)) in
    let here = listed_lem name (x ∷ xs) in
    let all = listed_lem "*" (x ∷ xs) in
    let filled : (length (x ∷ xs) == 0) ≡ false = ground arith in
    rw filled (
      (λ h. elim (o.0 h) [ inl e ↦ inr (inl (here.0 e)) | inr e ↦ inr (inr (all.0 e)) ]),
      (λ h. elim h [
        | inl e ↦ cc (e.0)
        | inr (inl e) ↦ o.1 (inl (here.1 e))
        | inr (inr e) ↦ o.1 (inr (all.1 e))
      ]),
    )

pub allows_namespace_lem :
    (g : TokenGrant) (name : String) → (allows_namespace g name ≡ true) ↔ IsCovered g name
unfolding allows_namespace
allows_namespace_lem g name = covers g.role g.namespaces name

pub token_grant-IsFirst :
    (grants : List TokenGrant) (token : String) (g : TokenGrant)
    → token_grant grants token ≡ some g
    → IsFirst grants token g
unfolding token_grant
token_grant-IsFirst [] token g e = cc e
token_grant-IsFirst (x ∷ grants) token g e = elim (Bool-cases (str_eq x.token_id token)) [
  | inl here ↦
      let is : x ≡ g = cc (rw here at e) in
      (
        [],
        grants,
        ap (λ h. h ∷ grants) is,
        ap (λ h. h.token_id) (sym is) ∙ (eq_iff x.token_id token).0 here,
        tt,
      )
  | inr other ↦
      let (before, after, is, of_token, others) =
        token_grant-IsFirst grants token g (rw other at e) in
      (
        x ∷ before,
        after,
        ap (◌∷◌ x) is,
        of_token,
        ((λ same. cc ((eq_iff x.token_id token).1 same, other)), others),
      )
]

pub IsFirst-token_grant :
    (grants : List TokenGrant) (token : String) (g : TokenGrant)
    → IsFirst grants token g
    → token_grant grants token ≡ some g
unfolding token_grant
IsFirst-token_grant grants token g (before, after, is, of_token, others) = rw is (go before others)
  where
    go :
        (before : List TokenGrant)
        → All (λ h. h.token_id ≢ token) before
        → token_grant (before ++ (g ∷ after)) token ≡ some g
    go [] h = rw ((eq_iff g.token_id token).1 of_token) refl
    go (x ∷ before) h = elim (Bool-cases (str_eq x.token_id token)) [
      | inl here ↦ absurd (h.0 ((eq_iff x.token_id token).0 here))
      | inr other ↦ rw other (go before h.1)
    ]
