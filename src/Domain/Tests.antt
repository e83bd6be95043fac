-- ===== src/Domain/Tests.antt =====
-- crates/domain: the theorem on the texts of the scopes at a text.
use token_hub.Prelude.{some, ◌≡◌}
use token_hub.Domain.Principal.{Scope, as_str, from_str_lossy}
use token_hub.Domain.Principal.Texts.{from_str_lossy_lem}

from_str_lossy_lem_example :
    (from_str_lossy "audit.read" ≡ some Scope.audit_read
      → ◌≡◌ "audit.read" (as_str Scope.audit_read))
    × (◌≡◌ "audit.read" (as_str Scope.audit_read)
        → from_str_lossy "audit.read" ≡ some Scope.audit_read)
from_str_lossy_lem_example = from_str_lossy_lem "audit.read" Scope.audit_read
