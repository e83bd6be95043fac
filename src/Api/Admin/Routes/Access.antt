-- ===== src/Api/Admin/Routes/Access.antt =====
-- crates/api/src/handlers/admin/{accounts,tokens,policies,services}.rs: a request that fails changes
-- nothing.
use token_hub.Prelude.{ℕ, String, Option, none, some, ◌≡◌, refl, arith, ◌==◌}
use token_hub.Prelude.Table.{update_where_none, rows_affected-row, row-insert, row-update_where}
use token_hub.Domain.Principal.{Principal}
use token_hub.Api.Error.{ApiError}
use token_hub.Api.Auth.Token.{revoke_token}
use token_hub.Api.Admin.State.{AdminState, Call}
use token_hub.Storage.Account.{is_account, account_row}
use token_hub.Storage.Policy.{is_policy}
use token_hub.Storage.Token.{revoke, revoked}
use token_hub.Storage.Account as AccountRepo
use token_hub.Storage.Token as TokenRepo
use token_hub.Storage.Policy as PolicyRepo
use token_hub.Storage.ServiceAccount as ServiceAccountRepo
use token_hub.Credits.Ledger as CreditsRepo
use token_hub.Api.Admin.Policies.{PolicyReq}
use token_hub.Api.Admin.Services.{CreateServiceReq, UpdateServiceReq}
use token_hub.Api.Admin.Accounts.{CreateAccount, note_of}
use token_hub.Storage.Account.{AccountRow}
use token_hub.Api.Admin.Accounts.{
  create_account, update_account, delete_account, bind_account_policy,
}
use token_hub.Api.Admin.Tokens.{create_token}
use token_hub.Api.Admin.Policies.{create_policy, update_policy, delete_policy}
use token_hub.Api.Admin.Services.{
  create_service, update_service, delete_service, reset_service_secret,
}
use token_hub.Api.Admin.Models.{Detail}
use token_hub.Api.Admin.Routes.{Request, handle}

module _ (hash_api_token : String → ℕ) (json : Detail → String) (p : Principal) (call : Call)
    (s : AdminState) (e : ApiError) where
  abbrev Fails : Request → Type 0
  Fails r = (handle hash_api_token json p r call s).0 ≡ some e

  abbrev Unchanged : Request → Type 0
  Unchanged r = (handle hash_api_token json p r call s).1 ≡ s

  -- A request that fails with this error changes nothing.
  abbrev pub Atomic : Request → Type 0
  Atomic r = Fails r → Unchanged r

  pub post_account-Atomic : (req : CreateAccount) → Atomic (Request.post_account req)
  unfolding handle create_account AccountRepo.create CreditsRepo.init
  post_account-Atomic req h =
      let new =
        row-insert (λ a. a.id) call.id
          (record {
            id = call.id;
            external_id = req.external_id;
            status = "active";
            policy_id = none;
            note = note_of req.note req.template;
            created_at = call.now;
            updated_at = call.now;
          })
          s.accounts in
      ground (arith, h, new)

  pub put_account-Atomic : (id : ℕ) (st t : Option String) → Atomic (Request.put_account id st t)
  unfolding handle update_account AccountRepo.set_status AccountRepo.get
  put_account-Atomic id none t h = ground (arith, h)
  put_account-Atomic id (some st) t h =
      let f : AccountRow → AccountRow = λ a. record a { status = st; updated_at = call.now } in
      let after = row-update_where (λ a. a.id) (is_account id) f (λ a. refl) id s.accounts in
      let kept = update_where_none (is_account id) f s.accounts in
      let miss = rows_affected-row (λ a. a.id) id s.accounts in ground (arith, h, after, kept, miss)

  pub remove_account-Atomic : (id : ℕ) → Atomic (Request.remove_account id)
  unfolding handle delete_account AccountRepo.set_status
  remove_account-Atomic id h = ground (
    arith,
    h,
    update_where_none (is_account id) (λ a. record a { status = "disabled"; updated_at = call.now })
        s.accounts,
  )

  pub post_account_policy-Atomic : (a q : ℕ) → Atomic (Request.post_account_policy a q)
  unfolding handle bind_account_policy AccountRepo.set_policy
  post_account_policy-Atomic a q h = ground (
    arith,
    h,
    update_where_none (is_account a) (λ b. record b { policy_id = some q; updated_at = call.now })
        s.accounts,
  )

  pub post_token-Atomic :
      (a : ℕ) (n : Option String) (t : String) → Atomic (Request.post_token a n t)
  unfolding handle create_token TokenRepo.create AccountRepo.get
  post_token-Atomic a n t h = ground (arith, h)

  pub remove_token-Atomic : (id : ℕ) → Atomic (Request.remove_token id)
  unfolding handle revoke_token revoke
  remove_token-Atomic id h =
      ground (arith, h, update_where_none (λ t. t.id == id) (revoked call.now) s.tokens)

  pub post_policy-Atomic : (req : PolicyReq) → Atomic (Request.post_policy req)
  unfolding handle create_policy PolicyRepo.create
  post_policy-Atomic req h = ground (arith, h)

  pub put_policy-Atomic : (id : ℕ) (req : PolicyReq) → Atomic (Request.put_policy id req)
  unfolding handle update_policy PolicyRepo.update
  put_policy-Atomic id req h = ground (arith, h)

  pub remove_policy-Atomic : (id : ℕ) → Atomic (Request.remove_policy id)
  unfolding handle delete_policy PolicyRepo.delete
  remove_policy-Atomic id h = ground (arith, h)

  pub post_service-Atomic :
      (req : CreateServiceReq) (t : String) → Atomic (Request.post_service req t)
  unfolding handle create_service ServiceAccountRepo.create
  post_service-Atomic req t h = ground (arith, h)

  pub put_service-Atomic : (id : ℕ) (req : UpdateServiceReq) → Atomic (Request.put_service id req)
  unfolding handle update_service
  put_service-Atomic id req h = ground (arith, h)

  pub remove_service-Atomic : (id : ℕ) → Atomic (Request.remove_service id)
  unfolding handle delete_service
  remove_service-Atomic id h = ground (arith, h)

  pub post_service_secret-Atomic : (id : ℕ) (t : String) → Atomic (Request.post_service_secret id t)
  unfolding handle reset_service_secret
  post_service_secret-Atomic id t h = ground (arith, h)
