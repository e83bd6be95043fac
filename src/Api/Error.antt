-- ===== src/Api/Error.antt =====
-- crates/api/src/error.rs. The message of an internal error is `none` where the database library
-- words it.
use token_hub.Prelude.{ℕ, String, Option}

pub data ApiError : Type 0 where
  unauthorized : String → ApiError
  forbidden not_found insufficient_credits : ApiError
  bad_request : String → ApiError
  no_provider : ApiError
  upstream : String → ApiError
  internal : Option String → ApiError

-- The status and the code of `into_response`.
unfoldable pub into_response : ApiError → ℕ × String
into_response (ApiError.unauthorized m) = (401, "unauthorized")
into_response ApiError.forbidden = (403, "forbidden")
into_response ApiError.not_found = (404, "not_found")
into_response ApiError.insufficient_credits = (402, "insufficient_credits")
into_response (ApiError.bad_request m) = (400, "bad_request")
into_response ApiError.no_provider = (503, "no_provider")
into_response (ApiError.upstream m) = (502, "upstream_error")
into_response (ApiError.internal m) = (500, "internal_error")
