-- ===== src/Storage/Mapping.antt =====
-- crates/storage/src/repo/model.rs: ModelProviderRepo over the table model_providers. A
-- text of the column `strategy` is kept as what `map_strategy` reads in it.
use token_hub.Prelude.{
  ℕ, String, Bool, true, false, not, Option, is_some, List, [], ◌∷◌, ◌++◌, DbResult, ok, failed,
  keep, if◌then◌else◌, ◌==◌, str_eq,
}
use token_hub.Prelude.Int.{ℤ, ltb_ℤ, leb_ℤ}
use token_hub.Prelude.Table.{row, update_where, rows_affected, delete_where}
use token_hub.Prelude.Sort.{sort_by}
use token_hub.Domain.Provider.{ModelProvider, RoutingStrategy}

abbrev pub Mappings : Type 0
Mappings = List ModelProvider

unfoldable pub map_strategy : String → RoutingStrategy
map_strategy s = if str_eq s "random" then RoutingStrategy.random else RoutingStrategy.sequential

abbrev pub mapping_row : ℕ → Mappings → Option ModelProvider
mapping_row id ms = row (λ m. m.id) id ms

abbrev pub is_mapping : ℕ → ModelProvider → Bool
is_mapping id m = m.id == id

-- `known`: the model and the provider exist, as the foreign keys demand.
unfoldable pub create :
    (known : Bool) (id logical_model_id provider_id : ℕ)
    → (upstream_model : String) (level weight : ℤ) (strategy : String) (enabled : Bool) (now : ℤ)
    → Mappings
    → DbResult ModelProvider × Mappings
unfolding map_strategy
create known id logical_model_id provider_id upstream_model level weight strategy enabled now ms =
    let m : ModelProvider = record {
      id = id;
      logical_model_id = logical_model_id;
      provider_id = provider_id;
      upstream_model = upstream_model;
      level = level;
      weight = weight;
      strategy = map_strategy strategy;
      enabled = enabled;
      created_at = now;
    } in
    if known
    then (if is_some (mapping_row id ms) then (failed, ms) else (ok m, ms ++ m ∷ []))
    else (failed, ms)

-- `ORDER BY level, weight`.
abbrev pub level_weight : ModelProvider → ModelProvider → Bool
level_weight m n =
    if ltb_ℤ m.level n.level
    then true
    else if ltb_ℤ n.level m.level
    then false
    else leb_ℤ m.weight n.weight

unfoldable pub list_by_logical_model : ℕ → Mappings → List ModelProvider
list_by_logical_model logical_model_id ms =
    sort_by level_weight
      (keep (λ m. if m.logical_model_id == logical_model_id then m.enabled else false) ms)

unfoldable pub list_all : Mappings → List ModelProvider
list_all ms = sort_by (λ m n. leb_ℤ m.created_at n.created_at) ms

unfoldable pub get : ℕ → Mappings → Option ModelProvider
get id ms = mapping_row id ms

-- The time that is handed over is not used.
unfoldable pub update :
    (id : ℕ) (level weight : ℤ) (strategy : String) (enabled : Bool) (now : ℤ)
    → Mappings
    → Bool × Mappings
unfolding map_strategy
update id level weight strategy enabled now ms = (
  not (rows_affected (is_mapping id) ms == 0),
  update_where (is_mapping id)
      (λ m. record m {
        level = level;
        weight = weight;
        strategy = map_strategy strategy;
        enabled = enabled;
      })
      ms,
)

unfoldable pub delete : ℕ → Mappings → Bool × Mappings
delete id ms = (not (rows_affected (is_mapping id) ms == 0), delete_where (is_mapping id) ms)
