-- ===== src/Api/Chat/Client.antt =====
-- crates/router-llm/src/client.rs: `UpstreamClient::chat`, over an HTTP client with a state of its own. It
-- is the upstream that the handler of a chat call takes.
use token_hub.Prelude.{
  ℕ, String, Bool, true, false, ◌&&◌, Option, unwrap_or, leb, ◌==◌, if◌then◌else◌, ◌≡◌, refl, ap,
  ◌∙◌,
}
use Prim.Native.Char.{code}
use Prim.Native.String.{◌++◌}
use Prim.Native.String.append
use token_hub.Router.Fallback.{UpstreamError}
use token_hub.Api.Chat.Request.{ChatRequest, ChatResponse, Reply}

-- What comes of sending a request: an error, or an answer with its status, the text of its body, if it
-- can be read, and what its JSON is parsed to.
pub data Parsed : Type 0 where
  parsed : ChatResponse → Parsed
  unparsed : String → Parsed

pub data Sent : Type 0 where
  timed_out : Sent
  unconnected failed : String → Sent
  received : (status : ℕ) (body : Option String) → Parsed → Sent

abbrev is_empty : String → Bool
is_empty String.[] = true
is_empty (String.◌∷◌ c s) = false

-- `trim_end_matches('/')`.
unfoldable pub trim_end_slashes : String → String
trim_end_slashes String.[] = ""
trim_end_slashes (String.◌∷◌ c s) =
    let rest = trim_end_slashes s in
    if code c == b'/' && is_empty rest then "" else String.◌∷◌ c rest

abbrev reply_of : Sent → Reply
reply_of Sent.timed_out = Reply.refused UpstreamError.timeout
reply_of (Sent.unconnected text) = Reply.refused (UpstreamError.connect text)
reply_of (Sent.failed text) = Reply.refused (UpstreamError.other text)
reply_of (Sent.received status body (Parsed.parsed response)) =
    if leb 400 status
    then Reply.refused (UpstreamError.status status (unwrap_or body ""))
    else Reply.answered response
reply_of (Sent.received status body (Parsed.unparsed text)) =
    if leb 400 status
    then Reply.refused (UpstreamError.status status (unwrap_or body ""))
    else Reply.refused (UpstreamError.other ("response parse: " ++ text))

module _ {ℓ} {S : Type ℓ} (http : S → (url api_key : String) → ChatRequest → Sent × S) where
  unfoldable pub chat : S → (base_url api_key : String) → ChatRequest → Reply × S
  unfolding trim_end_slashes
  chat s base_url api_key req =
      let (sent, s') = http s (trim_end_slashes base_url ++ "/chat/completions") api_key req in
      (reply_of sent, s')

  -- A slash at the end of a provider's base address makes no difference.
  pub chat-slash :
      (s : S) (base_url api_key : String) (req : ChatRequest)
      → chat s (base_url ++ "/") api_key req ≡ chat s base_url api_key req
  unfolding chat trim_end_slashes
  chat-slash s base_url api_key req =
      ap
        (λ base.
          let (sent, s') = http s (base ++ "/chat/completions") api_key req in (reply_of sent, s'))
        (trimmed base_url)
    where
      trimmed : (base : String) → trim_end_slashes (base ++ "/") ≡ trim_end_slashes base
      trimmed String.[] = refl
      trimmed (String.◌∷◌ c t) =
          ap trim_end_slashes (λ i. append.cons c t "/" i)
          ∙ ap (λ rest. if code c == b'/' && is_empty rest then "" else String.◌∷◌ c rest)
              (trimmed t)
