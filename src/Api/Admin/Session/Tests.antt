-- ===== src/Api/Admin/Session/Tests.antt =====
-- The theorem on the JWT of a service, with a signature that knows one service only.
use token_hub.Prelude.{
  ℕ, String, Bool, true, false, ◌&&◌, Option, none, some, List, [], ◌∷◌, any, ◌≡◌, refl, arith,
  ◌==◌, str_eq, eq_iff, if◌then◌else◌, inl, inr, Bool-cases,
}
use token_hub.Prelude.Int.{ℤ, pos, ltb_ℤ, eqb_ℤ, ◌+ℤ◌}
use token_hub.Prelude.I64.{add64, wrap64}
use token_hub.Domain.Principal.{Principal, PrincipalKind, Scope, as_str}
use token_hub.Storage.AdminUser.{AdminTables}
use token_hub.Storage.ServiceAccount.{Services, find_auth}
use token_hub.Api.Auth.Token.{ApiResult}
use token_hub.Api.Auth.Admin.{ServiceClaims, authenticate_admin}
use token_hub.Api.Auth.Admin.Rights.{allows}
use token_hub.Api.Admin.Session.{ClientCredentials, service_claims, service_token}
use token_hub.Api.Admin.Session.Jwt.{verify_service_jwt, ReadsBack, service_token_lem}

abbrev known : ServiceClaims
known = record {
  iss = 5;
  iat = pos 9;
  exp = pos 3609;
  scope = "credits.read" ∷ [];
  sub_kind = "service";
}

abbrev is_scope : List String → Bool
is_scope [] = false
is_scope (t ∷ []) = str_eq t "credits.read"
is_scope (t ∷ u ∷ texts) = false

abbrev is_known : ServiceClaims → Bool
is_known c =
    c.iss == 5
    && eqb_ℤ c.iat (pos 9)
    && eqb_ℤ c.exp (pos 3609)
    && is_scope c.scope
    && str_eq c.sub_kind "service"

abbrev sign_known : ServiceClaims → Option String
sign_known c = if is_known c then some "jwt" else none

abbrev decode_known : String → ℤ → Option ServiceClaims
decode_known token now = if str_eq token "jwt" then some known else none

is_scope-eq : (texts : List String) → is_scope texts ≡ true → texts ≡ "credits.read" ∷ []
is_scope-eq [] e = absurd (ground (arith, e))
is_scope-eq (t ∷ []) e = let same = (eq_iff t "credits.read").0 e in rw same refl
is_scope-eq (t ∷ u ∷ texts) e = absurd (ground (arith, e))

is_known-eq : (c : ServiceClaims) → is_known c ≡ true → c ≡ known
is_known-eq c e =
    let scope = is_scope-eq c.scope (ground (arith, e)) in
    let kind = (eq_iff c.sub_kind "service").0 (ground (arith, e)) in ground (arith, e, scope, kind)

sign_known-ReadsBack : ReadsBack sign_known decode_known
sign_known-ReadsBack c token now signed alive = elim (Bool-cases (is_known c)) [
  | inr other ↦ absurd (ground (arith, other, signed))
  | inl same ↦
      let that = is_known-eq c same in
      let text : token ≡ "jwt" = ground (arith, same, signed) in rw (text, that) refl
]

abbrev clients : Services
clients =
    record {
      account = record {
        id = 5;
        client_id = 6;
        name = "billing";
        scopes = "credits.read" ∷ [];
        ip_whitelist = none;
        public_key = none;
        status = "active";
        created_at = pos 0;
        updated_at = pos 0;
      };
      client_secret_hash = 1;
    }
    ∷ []

abbrev form : ClientCredentials
form = record { grant_type = "client_credentials"; client_id = 6; client_secret = "s" }

abbrev one_hash : String → ℕ
one_hash text = 1

service_token_lem_example :
    (id : ℕ) × (scopes : List String) × (find_auth 6 clients ≡ some (id, 1, scopes, "active"))
    × ((when : ℤ) (t : AdminTables)
        → ltb_ℤ (add64 (pos 9) (pos 3600)) when ≡ false
        → (p : Principal) × (authenticate_admin
              (verify_service_jwt decode_known when)
              one_hash
              t
              "jwt"
              when
            ≡ ApiResult.granted p)
          × (p.id ≡ id)
          × (p.kind ≡ PrincipalKind.service)
          × ((s : Scope) → allows p s ≡ any (λ text. str_eq text (as_str s)) scopes))
unfolding service_token service_claims find_auth wrap64 ◌+ℤ◌
service_token_lem_example =
    service_token_lem sign_known decode_known sign_known-ReadsBack one_hash one_hash form (pos 9)
      clients "jwt" (pos 3600) "credits.read" refl
