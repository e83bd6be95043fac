-- ===== src/Storage/Policy.antt =====
-- crates/storage/src/repo/policy.rs: PolicyRepo over the table policies, of which the name is unique.
use token_hub.Prelude.{
  ℕ, String, Bool, false, not, ◌||◌, Option, is_some, List, [], ◌∷◌, ◌++◌, DbResult, ok, failed,
  if◌then◌else◌, ◌==◌, str_eq, any,
}
use token_hub.Prelude.Int.{ℤ, leb_ℤ}
use token_hub.Prelude.Table.{find, row, update_where, rows_affected, delete_where}
use token_hub.Prelude.Sort.{sort_by}
use token_hub.Domain.Provider.{Policy}

abbrev pub Policies : Type 0
Policies = List Policy

abbrev pub policy_row : ℕ → Policies → Option Policy
policy_row id ps = row (λ p. p.id) id ps

abbrev pub is_policy : ℕ → Policy → Bool
is_policy id p = p.id == id

unfoldable pub get : ℕ → Policies → Option Policy
get id ps = policy_row id ps

unfoldable pub get_by_name : String → Policies → Option Policy
get_by_name name ps = find (λ p. str_eq p.name name) ps

unfoldable pub create :
    (id : ℕ) (name : String) (allowed_models : List String)
    → Option ℤ
    → (description : Option String) (now : ℤ) → Policies
    → DbResult Policy × Policies
unfolding get_by_name
create id name allowed_models monthly_credit_cap description now ps =
    let p : Policy = record {
      id = id;
      name = name;
      allowed_models = allowed_models;
      monthly_credit_cap = monthly_credit_cap;
      description = description;
      created_at = now;
      updated_at = now;
    } in
    if is_some (policy_row id ps) || is_some (get_by_name name ps)
    then (failed, ps)
    else (ok p, ps ++ p ∷ [])

unfoldable pub list : Policies → List Policy
list ps = sort_by (λ p q. leb_ℤ q.created_at p.created_at) ps

-- The `UPDATE` fails where it gives the row a name that another row has.
unfoldable pub update :
    (id : ℕ) (name : String) (allowed_models : List String)
    → Option ℤ
    → (description : Option String) (now : ℤ) → Policies
    → DbResult Bool × Policies
update id name allowed_models monthly_credit_cap description now ps =
    let taken = any (λ p. if is_policy id p then false else str_eq p.name name) ps in
    let hit = not (rows_affected (is_policy id) ps == 0) in
    if (if hit then taken else false) then (failed, ps) else (
      ok hit,
      update_where (is_policy id)
          (λ p. record p {
            name = name;
            allowed_models = allowed_models;
            monthly_credit_cap = monthly_credit_cap;
            description = description;
            updated_at = now;
          })
          ps,
    )

-- `referenced`: an account names the policy, and its foreign key forbids the deletion.
unfoldable pub delete : (referenced : Bool) → ℕ → Policies → DbResult Bool × Policies
delete referenced id ps =
    if referenced
    then (failed, ps)
    else (ok (not (rows_affected (is_policy id) ps == 0)), delete_where (is_policy id) ps)
