-- ===== src/Api/Chat/Course.antt =====
-- crates/api/src/handlers/chat.rs: the two courses that a call can take.
use Prim.Native.String.{◌++◌}
use token_hub.Prelude.{
  ℕ, String, Bool, false, Option, none, some, List, [], ◌∷◌, map, DbResult, ok, failed, ◌≡◌, ◌⊎◌,
  refl, inl, inr, Bool-cases, Option-cases, ◌==◌,
}
use token_hub.Prelude.Int.{ℤ}
use token_hub.Domain.Principal.{Principal}
use token_hub.Domain.Provider.{LogicalModel, ModelProvider, ProviderCredential}
use token_hub.Billing.Estimator.{Tokenizer}
use token_hub.Credits.Ledger.{Ledger}
use token_hub.Credits.Hold.{place_hold}
use token_hub.Router.Fallback.{UpstreamError, FallbackOutcome, classify}
use token_hub.Router.Selector.{RouteCandidate}
use token_hub.Router.Selector.Order.{select_total}
use token_hub.Storage.Mapping.{list_by_logical_model}
use token_hub.Storage.Model.{get_by_name}
use token_hub.Storage.Provider.{Providers}
use token_hub.Api.Error.{ApiError}
use token_hub.Api.Chat.Request.{
  ChatCompletionsRequest, ChatRequest, Reply, Db, active_candidates, prompt_text, route_candidate,
  from_completions,
}
use token_hub.Api.Chat.Upstream.{Attempt, attempt}
use token_hub.Prelude.Table.{find}
use token_hub.Api.Chat.Accounting.{Outcome, Draws, est_credits}
use token_hub.Api.Chat.Handler.{conclude, serve, chat_completions, account_of}

-- Every error but an internal one with a reason.
abbrev pub IsPlain : ApiError → Type 0
IsPlain (ApiError.internal (some reason)) = ⊥
IsPlain _ = Unit {0}

-- The last error of the loop, if it has one, is of the upstream.
abbrev pub PlainEnd : Attempt → Type 0
PlainEnd (Attempt.exhausted (some e)) = IsPlain e
PlainEnd _ = Unit {0}

-- Either the call is rejected and changes nothing, or a hold is placed and the loop over the
-- candidates ends somehow.
abbrev pub Course :
    Tokenizer → Draws → Principal → ChatCompletionsRequest → Db → Outcome × Db × Bool → Type 0
Course bpe d principal req db result =
    ((e : ApiError) × IsPlain e × (result ≡ (Outcome.error e, db, false)))
    ⊎ ((m : LogicalModel) × (x : ℕ × ℤ) × (ledger : Ledger) × (end : Attempt) × (ps : Providers)
        × PlainEnd end
        × (get_by_name req.model db.models ≡ some m)
        × (place_hold d.hold_id (account_of principal)
              (est_credits bpe (prompt_text req.messages) m) (some d.request_id) d.now db.ledger
            ≡ (ok (some x), ledger))
        × (result
            ≡ conclude bpe d (account_of principal) req m end
                (record db { ledger = ledger; providers = ps })))

module _ {X S : Type 0} (chat : X → (base_url api_key : String) → ChatRequest → Reply × X)
    (gen_range : S → ℤ → ℤ × S) (bpe : Tokenizer) (d : Draws) (principal : Principal)
    (req : ChatCompletionsRequest) (ext : X) (rng : S) where
  attempt-PlainEnd :
      (cs : List (ModelProvider × ProviderCredential)) (ordered : List RouteCandidate)
      (last : Option ApiError) (ps : Providers) (x : X)
      → PlainEnd (Attempt.exhausted last)
      → PlainEnd (attempt chat cs (from_completions req) d.now ordered last ps x).0
  unfolding attempt
  attempt-PlainEnd cs [] last ps x plain = plain
  attempt-PlainEnd cs (r ∷ ordered) last ps x plain =
      by_provider (find (λ y. (y.1).id == r.provider_id) cs) refl
        (λ next qs z h. attempt-PlainEnd cs ordered next qs z h)
    where
      Goal : Type 0
      Goal = PlainEnd (attempt chat cs (from_completions req) d.now (r ∷ ordered) last ps x).0

      Rest : Type 0
      Rest =
          (next : Option ApiError) (qs : Providers) (z : X)
          → PlainEnd (Attempt.exhausted next)
          → PlainEnd (attempt chat cs (from_completions req) d.now ordered next qs z).0

      sent : ModelProvider × ProviderCredential → Reply × X
      sent y =
          chat x (y.1).base_url (y.1).api_key_enc
            (record (from_completions req) { model = r.upstream_model })

      by_class :
          (y : ModelProvider × ProviderCredential) (e : UpstreamError) (o : Option FallbackOutcome)
          → find (λ z. (z.1).id == r.provider_id) cs ≡ some y
          → (sent y).0 ≡ Reply.refused e
          → classify e ≡ o
          → Rest
          → Goal
      by_class y e none f s k again = simp (attempt, f, s, k) tt
      by_class y e (some FallbackOutcome.no_fallback) f s k again = simp (attempt, f, s, k) tt
      by_class y e (some (FallbackOutcome.should_disable_and_fallback reason)) f s k again =
          simp (attempt, f, s, k) (again _ _ _ tt)

      by_reply :
          (y : ModelProvider × ProviderCredential) (reply : Reply)
          → find (λ z. (z.1).id == r.provider_id) cs ≡ some y
          → (sent y).0 ≡ reply
          → Rest
          → Goal
      by_reply y (Reply.answered response) f s again = simp (attempt, f, s) tt
      by_reply y (Reply.refused e) f s again = by_class y e (classify e) f s refl again

      by_provider :
          (o : Option (ModelProvider × ProviderCredential))
          → find (λ y. (y.1).id == r.provider_id) cs ≡ o
          → Rest
          → Goal
      by_provider none e again = simp (attempt, e) (again last ps x plain)
      by_provider (some y) e again = by_reply y (sent y).0 e refl again

  served :
      (m : LogicalModel) (cs : List (ModelProvider × ProviderCredential)) (db : Db)
      → (end : Attempt) × (ps : Providers) × PlainEnd end
        × (serve chat gen_range bpe d (account_of principal) req m cs ext rng db
            ≡ conclude bpe d (account_of principal) req m end (record db { providers = ps }))
  unfolding serve
  served m cs db =
      let (ordered, last, done, same, levels) =
        select_total gen_range rng (map route_candidate cs) in
      let run = attempt chat cs (from_completions req) d.now ordered none db.providers ext in
      (run.0, run.1, attempt-PlainEnd cs ordered none db.providers ext tt, rw (done, serve) refl)

  module _ (db : Db) where
    abbrev result : Outcome × Db × Bool
    result = chat_completions chat gen_range bpe d principal req ext rng db

    abbrev hold : LogicalModel → DbResult (Option (ℕ × ℤ)) × Ledger
    hold m =
        place_hold d.hold_id (account_of principal) (est_credits bpe (prompt_text req.messages) m)
          (some d.request_id) d.now db.ledger

    module _ (plain : req.stream ≡ false) (m : LogicalModel)
        (named : get_by_name req.model db.models ≡ some m) (first : ModelProvider)
        (others : List ModelProvider)
        (mapped : list_by_logical_model m.id db.mappings ≡ first ∷ others)
        (c : ModelProvider × ProviderCredential) (cs : List (ModelProvider × ProviderCredential))
        (active : active_candidates (first ∷ others) db.providers ≡ c ∷ cs) where
      by_hold :
          (r : DbResult (Option (ℕ × ℤ))) → (hold m).0 ≡ r → Course bpe d principal req db result
      unfolding chat_completions
      by_hold failed e =
          inl (ApiError.internal none, tt, simp (chat_completions, plain, named, mapped, active, e))
      by_hold (ok none) e = inl (
        ApiError.insufficient_credits,
        tt,
        simp (chat_completions, plain, named, mapped, active, e),
      )
      by_hold (ok (some x)) e =
          let (end, ps, plain_end, done) = served m (c ∷ cs) (record db { ledger = (hold m).1 }) in
          inr (
            m,
            x,
            (hold m).1,
            end,
            ps,
            plain_end,
            named,
            (λ i. (e i, (hold m).1)),
            simp (chat_completions, plain, named, mapped, active, e) done,
          )

    by_active :
        req.stream ≡ false
        → (m : LogicalModel) → get_by_name req.model db.models ≡ some m
        → (first : ModelProvider) (others : List ModelProvider)
        → list_by_logical_model m.id db.mappings ≡ first ∷ others
        → (cs : List (ModelProvider × ProviderCredential))
        → active_candidates (first ∷ others) db.providers ≡ cs
        → Course bpe d principal req db result
    unfolding chat_completions
    by_active plain m named first others mapped [] e =
        inl (ApiError.no_provider, tt, simp (chat_completions, plain, named, mapped, e))
    by_active plain m named first others mapped (c ∷ cs) e =
        by_hold plain m named first others mapped c cs e (hold m).0 refl

    by_mapping :
        req.stream ≡ false
        → (m : LogicalModel) → get_by_name req.model db.models ≡ some m
        → (ms : List ModelProvider) → list_by_logical_model m.id db.mappings ≡ ms
        → Course bpe d principal req db result
    unfolding chat_completions
    by_mapping plain m named [] e =
        inl (ApiError.no_provider, tt, simp (chat_completions, plain, named, e))
    by_mapping plain m named (first ∷ others) e =
        by_active plain m named first others e (active_candidates (first ∷ others) db.providers)
          refl

    pub course : Course bpe d principal req db result
    unfolding chat_completions
    course = elim (Bool-cases req.stream) [
      | inl stream ↦ inl (
        ApiError.bad_request "streaming not yet implemented",
        tt,
        simp (chat_completions, stream),
      )
      | inr plain ↦ elim (Option-cases (get_by_name req.model db.models)) [
        | inl missing ↦ inl (
          ApiError.bad_request ("unknown model: " ++ req.model),
          tt,
          simp (chat_completions, plain, missing),
        )
        | inr (m, named) ↦ by_mapping plain m named (list_by_logical_model m.id db.mappings) refl
      ]
    ]
