-- ===== src/Api/Auth/Admin/Rights.antt =====
-- crates/api/src/middleware/auth_admin.rs: what each kind of caller is allowed to do.
use token_hub.Prelude.{
  ℕ, String, Bool, true, false, ◌||◌, Option, none, some, List, [], ◌∷◌, any, ◌≡◌, ◌∙◌, refl, ap,
  inl, inr, arith, Bool-cases, if◌then◌else◌, ◌==◌, str_eq, eq_iff,
}
use token_hub.Domain.Principal.{
  Principal, PrincipalKind, Scope, discriminant, as_str, from_str_lossy, has_scope, is_super_admin,
}
use token_hub.Domain.Principal.Texts.{from_str_lossy-as_str, from_str_lossy-eq}
use token_hub.Storage.AdminUser.{AdminUserRecord}
use token_hub.Api.Auth.Token.{ApiResult}
use token_hub.Api.Auth.Admin.{
  ServiceClaims, check, scopes_of, service, administrator, has_full_role, read_scopes, all_scopes,
}

abbrev pub allows : Principal → Scope → Bool
allows p s = elim (check p s) [ ApiResult.granted _ ↦ true | ApiResult.denied _ ↦ false ]

-- The scopes that an administrator without a full role has.
abbrev pub is_read : Scope → Bool
is_read Scope.admin_read = true
is_read Scope.accounts_read = true
is_read Scope.tokens_read = true
is_read Scope.credits_read = true
is_read Scope.models_read = true
is_read Scope.providers_read = true
is_read Scope.reports_read = true
is_read Scope.audit_read = true
is_read _ = false

discriminant-inj : (x y : Scope) → discriminant x ≡ discriminant y → x ≡ y
discriminant-inj Scope.admin_read y h = ground arith
discriminant-inj Scope.admin_write y h = ground arith
discriminant-inj Scope.accounts_read y h = ground arith
discriminant-inj Scope.accounts_write y h = ground arith
discriminant-inj Scope.tokens_read y h = ground arith
discriminant-inj Scope.tokens_write y h = ground arith
discriminant-inj Scope.credits_read y h = ground arith
discriminant-inj Scope.credits_write y h = ground arith
discriminant-inj Scope.credits_admin y h = ground arith
discriminant-inj Scope.models_read y h = ground arith
discriminant-inj Scope.models_write y h = ground arith
discriminant-inj Scope.providers_read y h = ground arith
discriminant-inj Scope.providers_write y h = ground arith
discriminant-inj Scope.services_read y h = ground arith
discriminant-inj Scope.services_write y h = ground arith
discriminant-inj Scope.policies_read y h = ground arith
discriminant-inj Scope.policies_write y h = ground arith
discriminant-inj Scope.reports_read y h = ground arith
discriminant-inj Scope.audit_read y h = ground arith

-- The list of a service's scopes, searched, is the list of its claims' texts, searched.
claims-scopes :
    (texts : List String) (s : Scope)
    → any (λ x. discriminant x == discriminant s) (scopes_of texts)
      ≡ any (λ t. str_eq t (as_str s)) texts
claims-scopes [] s = refl
claims-scopes (t ∷ texts) s = by_text (from_str_lossy t) refl (claims-scopes texts s)
  where
    rest : Bool
    rest = any (λ u. str_eq u (as_str s)) texts

    same_text : str_eq t (as_str s) ≡ true → from_str_lossy t ≡ some s
    same_text e = ap from_str_lossy ((eq_iff t (as_str s)).0 e) ∙ from_str_lossy-as_str s

    by_text :
        (o : Option Scope)
        → from_str_lossy t ≡ o
        → any (λ x. discriminant x == discriminant s) (scopes_of texts) ≡ rest
        → any (λ x. discriminant x == discriminant s) (scopes_of (t ∷ texts))
          ≡ (if str_eq t (as_str s) then true else rest)
    by_text none e again = elim (Bool-cases (str_eq t (as_str s))) [
      | inl here ↦ absurd (ground (arith, same_text here))
      | inr other ↦ ground (arith, e, other)
    ]
    by_text (some x) e again = elim (Bool-cases (str_eq t (as_str s))) [
      | inl here ↦
          let same : x ≡ s = ground (arith, same_text here) in ground (arith, e, same, here)
      | inr other ↦ elim (Bool-cases (discriminant x == discriminant s)) [
        | inl equal ↦
            let same : x ≡ s = discriminant-inj x s (ground arith) in
            let text : t ≡ as_str s = from_str_lossy-eq t s (rw same at e) in
            absurd (ground (arith, (eq_iff t (as_str s)).1 text))
        | inr distinct ↦ ground (arith, e, other, distinct)
      ]
    ]

-- A service may do exactly what its claims name: the scopes whose texts stand among them. No role
-- and no other claim widens that.
pub allows-service :
    (claims : ServiceClaims) (s : Scope)
    → allows (service claims) s ≡ any (λ t. str_eq t (as_str s)) claims.scope
unfolding check has_scope is_super_admin
allows-service claims s = ground (arith, claims-scopes claims.scope s)

with_scopes : ℕ → List Scope → Principal
with_scopes id scopes = record {
  kind = PrincipalKind.admin;
  id = id;
  account_id = none;
  scopes = scopes;
}

by_full : (id : ℕ) (s : Scope) → allows (with_scopes id all_scopes) s ≡ true
unfolding check has_scope is_super_admin with_scopes
by_full id Scope.admin_read = refl
by_full id Scope.admin_write = refl
by_full id Scope.accounts_read = refl
by_full id Scope.accounts_write = refl
by_full id Scope.tokens_read = refl
by_full id Scope.tokens_write = refl
by_full id Scope.credits_read = refl
by_full id Scope.credits_write = refl
by_full id Scope.credits_admin = refl
by_full id Scope.models_read = refl
by_full id Scope.models_write = refl
by_full id Scope.providers_read = refl
by_full id Scope.providers_write = refl
by_full id Scope.services_read = refl
by_full id Scope.services_write = refl
by_full id Scope.policies_read = refl
by_full id Scope.policies_write = refl
by_full id Scope.reports_read = refl
by_full id Scope.audit_read = refl

by_plain : (id : ℕ) (s : Scope) → allows (with_scopes id read_scopes) s ≡ is_read s
unfolding check has_scope is_super_admin with_scopes
by_plain id Scope.admin_read = refl
by_plain id Scope.admin_write = refl
by_plain id Scope.accounts_read = refl
by_plain id Scope.accounts_write = refl
by_plain id Scope.tokens_read = refl
by_plain id Scope.tokens_write = refl
by_plain id Scope.credits_read = refl
by_plain id Scope.credits_write = refl
by_plain id Scope.credits_admin = refl
by_plain id Scope.models_read = refl
by_plain id Scope.models_write = refl
by_plain id Scope.providers_read = refl
by_plain id Scope.providers_write = refl
by_plain id Scope.services_read = refl
by_plain id Scope.services_write = refl
by_plain id Scope.policies_read = refl
by_plain id Scope.policies_write = refl
by_plain id Scope.reports_read = refl
by_plain id Scope.audit_read = refl

-- An administrator with one of the two full roles may do everything; any other may do exactly what
-- needs one of the eight scopes for reading, and never writes.
pub allows-administrator :
    (admin : AdminUserRecord) (s : Scope)
    → allows (administrator admin) s ≡ (has_full_role admin.roles || is_read s)
unfolding check has_scope is_super_admin with_scopes
allows-administrator admin s = elim (Bool-cases (has_full_role admin.roles)) [
  | inl full ↦ simp full (by_full admin.id s)
  | inr plain ↦ simp plain (by_plain admin.id s)
]
