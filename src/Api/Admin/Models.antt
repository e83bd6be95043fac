-- ===== src/Api/Admin/Models.antt =====
-- crates/api/src/handlers/admin/models.rs. `json`: the text of an audit row's detail.
use token_hub.Prelude.{
  ℕ, String, Bool, true, false, not, Option, none, some, List, any, ok, failed, if◌then◌else◌, ◌==◌,
}
use token_hub.Prelude.Int.{ℤ}
use token_hub.Domain.Principal.{Principal, Scope}
use token_hub.Domain.Provider.{LogicalModel}
use token_hub.Storage.Model as ModelRepo
use token_hub.Api.Error.{ApiError}
use token_hub.Api.Auth.Token.{ApiResult}
use token_hub.Api.Admin.Credits.{may}
use token_hub.Api.Admin.State.{AdminState, Call, refuse, database_error, audited}

unfoldable pub list_models_admin : Principal → AdminState → ApiResult (List LogicalModel)
list_models_admin principal s =
    if not (may principal Scope.models_read)
    then ApiResult.denied ApiError.forbidden
    else ApiResult.granted (ModelRepo.list s.models)

pub record CreateModelReq : Type 0 where
  pub logical_name : String
  pub description : Option String
  pub input_rate_per_1k : ℤ
  pub output_rate_per_1k : ℤ

pub record UpdateModelReq : Type 0 where
  pub logical_name : String
  pub description : Option String
  pub input_rate_per_1k : ℤ
  pub output_rate_per_1k : ℤ
  pub status : String

-- From what the details are made.
pub data Detail : Type 0 where
  created : LogicalModel → Detail
  updated : ℕ → UpdateModelReq → Detail
  rated :
      (id : ℕ) (logical_name : String) (before_input before_output after_input after_output : ℤ)
      → Detail

abbrev referenced : ℕ → AdminState → Bool
referenced id s = any (λ m. m.logical_model_id == id) s.mappings

module _ (json : Detail → String) (principal : Principal) where
  unfoldable pub create_model :
      CreateModelReq → Call → AdminState → ApiResult LogicalModel × AdminState
  unfolding ModelRepo.create audited
  create_model req call s =
      if not (may principal Scope.models_write)
      then refuse ApiError.forbidden s
      else (let (made, models) =
            ModelRepo.create call.id req.logical_name req.description req.input_rate_per_1k
              req.output_rate_per_1k call.now s.models in
          elim made [
            | failed ↦ refuse database_error (record s { models = models })
            | ok m ↦ (
              ApiResult.granted m,
              audited call principal "model.create" "model" m.id (some (json (created m)))
                  (record s { models = models }),
            )
          ])

  unfoldable pub update_model :
      ℕ → UpdateModelReq → Call → AdminState → ApiResult (Unit {0}) × AdminState
  unfolding ModelRepo.update audited
  update_model id req call s =
      if not (may principal Scope.models_write)
      then refuse ApiError.forbidden s
      else (let (r, models) =
            ModelRepo.update id req.logical_name req.description req.input_rate_per_1k
              req.output_rate_per_1k req.status call.now s.models in
          elim r [
            | failed ↦ refuse database_error (record s { models = models })
            | ok false ↦ refuse ApiError.not_found (record s { models = models })
            | ok true ↦ (
              ApiResult.granted tt,
              audited call principal "model.update" "model" id (some (json (updated id req)))
                  (record s { models = models }),
            )
          ])

  unfoldable pub delete_model : ℕ → Call → AdminState → ApiResult (Unit {0}) × AdminState
  unfolding ModelRepo.delete audited
  delete_model id call s =
      if not (may principal Scope.models_write)
      then refuse ApiError.forbidden s
      else (let (r, models) = ModelRepo.delete (referenced id s) id s.models in
          elim r [
            | failed ↦ refuse database_error (record s { models = models })
            | ok false ↦ refuse ApiError.not_found (record s { models = models })
            | ok true ↦ (
              ApiResult.granted tt,
              audited call principal "model.delete" "model" id none (record s { models = models }),
            )
          ])

  unfoldable pub set_rates :
      ℕ
      → (input_rate_per_1k output_rate_per_1k : ℤ) → Call
      → AdminState
      → ApiResult (ℕ × ℤ × ℤ) × AdminState
  unfolding ModelRepo.get ModelRepo.set_rates audited
  set_rates id input_rate_per_1k output_rate_per_1k call s =
      if not (may principal Scope.models_write)
      then refuse ApiError.forbidden s
      else elim (ModelRepo.get id s.models) [
        | none ↦ refuse ApiError.not_found s
        | some before ↦
            let (hit, models) =
              ModelRepo.set_rates id input_rate_per_1k output_rate_per_1k call.now s.models in
            if not hit then refuse ApiError.not_found (record s { models = models }) else (
              ApiResult.granted (id, input_rate_per_1k, output_rate_per_1k),
              audited call principal "rate.update" "model" id
                  (some (
                    json (
                      rated id before.logical_name before.input_rate_per_1k
                        before.output_rate_per_1k input_rate_per_1k output_rate_per_1k)))
                  (record s { models = models }),
            )
      ]
