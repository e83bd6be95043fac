-- ===== src/Domain/Principal/Texts.antt =====
-- crates/domain/src/principal.rs: the texts of the scopes.
use token_hub.Prelude.{
  String, Option, some, ◌≡◌, refl, ap, arith, str_eq, eq_iff, if◌then◌else◌, inl, inr, Bool-cases,
  ◌∙◌,
}
use token_hub.Domain.Principal.{Scope, as_str, from_str_lossy}

-- Reading back.
pub from_str_lossy-as_str : (s : Scope) → from_str_lossy (as_str s) ≡ some s
unfolding from_str_lossy as_str
from_str_lossy-as_str Scope.admin_read = refl
from_str_lossy-as_str Scope.admin_write = refl
from_str_lossy-as_str Scope.accounts_read = refl
from_str_lossy-as_str Scope.accounts_write = refl
from_str_lossy-as_str Scope.tokens_read = refl
from_str_lossy-as_str Scope.tokens_write = refl
from_str_lossy-as_str Scope.credits_read = refl
from_str_lossy-as_str Scope.credits_write = refl
from_str_lossy-as_str Scope.credits_admin = refl
from_str_lossy-as_str Scope.models_read = refl
from_str_lossy-as_str Scope.models_write = refl
from_str_lossy-as_str Scope.providers_read = refl
from_str_lossy-as_str Scope.providers_write = refl
from_str_lossy-as_str Scope.services_read = refl
from_str_lossy-as_str Scope.services_write = refl
from_str_lossy-as_str Scope.policies_read = refl
from_str_lossy-as_str Scope.policies_write = refl
from_str_lossy-as_str Scope.reports_read = refl
from_str_lossy-as_str Scope.audit_read = refl

rung :
    (t : String) (s x : Scope) {rest : Option Scope}
    → (rest ≡ some s → t ≡ as_str s)
    → (if str_eq t (as_str x) then some x else rest) ≡ some s
    → t ≡ as_str s
rung t s x later h = elim (Bool-cases (str_eq t (as_str x))) [
  | inl here ↦
      let same : x ≡ s = ground (arith, here) in (eq_iff t (as_str x)).0 here ∙ ap as_str same
  | inr other ↦ later (ground (arith, other))
]

pub from_str_lossy-eq : (t : String) (s : Scope) → from_str_lossy t ≡ some s → t ≡ as_str s
unfolding from_str_lossy as_str
from_str_lossy-eq t s = rung t s Scope.admin_read (
    rung t s Scope.admin_write (
      rung t s Scope.accounts_read (
        rung t s Scope.accounts_write (
          rung t s Scope.tokens_read (
            rung t s Scope.tokens_write (
              rung t s Scope.credits_read (
                rung t s Scope.credits_write (
                  rung t s Scope.credits_admin (
                    rung t s Scope.models_read (
                      rung t s Scope.models_write (
                        rung t s Scope.providers_read (
                          rung t s Scope.providers_write (
                            rung t s Scope.services_read (
                              rung t s Scope.services_write (
                                rung t s Scope.policies_read (
                                  rung t s Scope.policies_write (
                                    rung t s Scope.reports_read
                                      (rung t s Scope.audit_read (λ e. cc)))))))))))))))))))

-- A text is read as a scope exactly if it is the text of that scope.
pub from_str_lossy_lem :
    (t : String) (s : Scope)
    → (from_str_lossy t ≡ some s → t ≡ as_str s) × (t ≡ as_str s → from_str_lossy t ≡ some s)
from_str_lossy_lem t s = (from_str_lossy-eq t s, λ e. ap from_str_lossy e ∙ from_str_lossy-as_str s)
