-- ===== src/Auth.antt =====
-- auth.py: the bearer token, and the middleware in front of every route. A header is the list of its
-- code points; `compare_digest` of two UTF-8 encodings is equality of the texts.
mod Gate
mod Tests
use openai_api_bridge.Prelude.{
  ℕ, String, Bool, true, false, Option, none, some, List, [], ◌∷◌, ◌||◌, not, if◌then◌else◌, Text,
  codes, text_eq, after_prefix,
}
use openai_api_bridge.Errors.{
  Message, lit, unauthorized, ErrorResponse, status_code, error_type, code, error_payload,
}

abbrev pub bearer : Text
bearer = codes "Bearer "

-- why the header fails to carry the key, or none
unfoldable pub check_bearer : Option Text → Text → Option Message
check_bearer none api_key = some (lit "Missing or malformed Authorization header" ∷ [])
check_bearer (some authorization) api_key = elim (after_prefix bearer authorization) [
  | none ↦ some (lit "Missing or malformed Authorization header" ∷ [])
  | some presented ↦ if text_eq presented api_key then none else some (lit "Invalid API key" ∷ [])
]

pub record Scope : Type 0 where
  pub is_http : Bool
  pub path : Text
  pub authorization : Option Text

-- the call goes on to the application, or is answered here, with a `www-authenticate` header
pub data Verdict : Type 0 where
  forwarded : Verdict
  refused : ErrorResponse → Verdict

unfoldable pub is_exempt : Text → List Text → Bool
is_exempt path [] = false
is_exempt path (p ∷ ps) = text_eq path p || is_exempt path ps

unfoldable pub unauthorized_response : Message → ErrorResponse
unfolding status_code error_type code error_payload
unauthorized_response reason = record {
  status = status_code unauthorized;
  error = error_payload reason (error_type unauthorized) (some (code unauthorized)) none;
}

-- `ApiKeyMiddleware.__call__`
unfoldable pub authenticate : Text → List Text → Scope → Verdict
unfolding check_bearer unauthorized_response
authenticate api_key exempt_paths scope =
    if not scope.is_http || is_exempt scope.path exempt_paths
    then forwarded
    else elim (check_bearer scope.authorization api_key) [
      | none ↦ forwarded
      | some reason ↦ refused (unauthorized_response reason)
    ]
