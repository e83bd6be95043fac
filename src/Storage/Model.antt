-- ===== src/Storage/Model.antt =====
-- crates/storage/src/repo/model.rs: ModelRepo over the table models. The column logical_name is
-- unique, like the key.
use token_hub.Prelude.{
  ℕ, String, Bool, false, not, ◌||◌, Option, is_some, List, [], ◌∷◌, ◌++◌, DbResult, ok, failed,
  if◌then◌else◌, ◌==◌, str_eq, any,
}
use token_hub.Prelude.Int.{ℤ, leb_ℤ}
use token_hub.Prelude.Table.{find, row, update_where, rows_affected, delete_where}
use token_hub.Prelude.Sort.{sort_by}
use token_hub.Domain.Provider.{LogicalModel}

abbrev pub Models : Type 0
Models = List LogicalModel

abbrev pub model_row : ℕ → Models → Option LogicalModel
model_row id ms = row (λ m. m.id) id ms

abbrev pub is_model : ℕ → LogicalModel → Bool
is_model id m = m.id == id

unfoldable pub get : ℕ → Models → Option LogicalModel
get id ms = model_row id ms

unfoldable pub get_by_name : String → Models → Option LogicalModel
get_by_name logical_name ms = find (λ m. str_eq m.logical_name logical_name) ms

unfoldable pub create :
    (id : ℕ) (logical_name : String) (description : Option String)
    → (input_rate_per_1k output_rate_per_1k now : ℤ) → Models
    → DbResult LogicalModel × Models
unfolding get_by_name
create id logical_name description input_rate_per_1k output_rate_per_1k now ms =
    let m : LogicalModel = record {
      id = id;
      logical_name = logical_name;
      description = description;
      input_rate_per_1k = input_rate_per_1k;
      output_rate_per_1k = output_rate_per_1k;
      status = "active";
      created_at = now;
      updated_at = now;
    } in
    if is_some (model_row id ms) || is_some (get_by_name logical_name ms)
    then (failed, ms)
    else (ok m, ms ++ m ∷ [])

unfoldable pub list : Models → List LogicalModel
list ms = sort_by (λ m n. leb_ℤ m.created_at n.created_at) ms

-- The `UPDATE` fails where it gives the row a name that another row has.
unfoldable pub update :
    (id : ℕ) (logical_name : String) (description : Option String)
    → (input_rate_per_1k output_rate_per_1k : ℤ) (status : String) (now : ℤ) → Models
    → DbResult Bool × Models
update id logical_name description input_rate_per_1k output_rate_per_1k status now ms =
    let taken = any (λ m. if is_model id m then false else str_eq m.logical_name logical_name) ms in
    let hit = not (rows_affected (is_model id) ms == 0) in
    if (if hit then taken else false) then (failed, ms) else (
      ok hit,
      update_where (is_model id)
          (λ m. record m {
            logical_name = logical_name;
            description = description;
            input_rate_per_1k = input_rate_per_1k;
            output_rate_per_1k = output_rate_per_1k;
            status = status;
            updated_at = now;
          })
          ms,
    )

unfoldable pub set_rates :
    (id : ℕ) (input_rate_per_1k output_rate_per_1k now : ℤ) → Models → Bool × Models
set_rates id input_rate_per_1k output_rate_per_1k now ms = (
  not (rows_affected (is_model id) ms == 0),
  update_where (is_model id)
      (λ m. record m {
        input_rate_per_1k = input_rate_per_1k;
        output_rate_per_1k = output_rate_per_1k;
        updated_at = now;
      })
      ms,
)

-- `referenced`: a mapping names the model, and its foreign key forbids the deletion.
unfoldable pub delete : (referenced : Bool) → ℕ → Models → DbResult Bool × Models
delete referenced id ms =
    if referenced
    then (failed, ms)
    else (ok (not (rows_affected (is_model id) ms == 0)), delete_where (is_model id) ms)
