-- ===== src/Http/Status.antt =====
-- How util/http.py translates an upstream's status, `raise_for_upstream_status`, and strips a URL's
-- query, `redact_url`.
use openai_api_bridge.Prelude.{
  ℕ, ◌≤◌, ◌<◌, ◌≡◌, ◌≢◌, ◌↔◌, ◌⊎◌, refl, String, false, [], ◌∷◌, ◌++◌, Text, before, contains,
  contains-before, before-append, arith,
}
use openai_api_bridge.Errors.{error_type, invalid_request_error, rate_limit_error}
use openai_api_bridge.Http.{raise_for_upstream_status, redact_url}

-- For every status an upstream can refuse with, the client is told that its own request is at fault
-- exactly at the 4xx statuses that are neither about the bridge's credentials (401, 403) nor a rate
-- limit (429); it is told of a rate limit exactly at 429.
pub client_fault_exact :
    (status : ℕ) (body provider endpoint : String)
    → ((error_type (raise_for_upstream_status status body provider endpoint).kind
          ≡ invalid_request_error)
        ↔ ((400 ≤ status) × (status < 500) × (status ≢ 401) × (status ≢ 403) × (status ≢ 429)))
      × ((error_type (raise_for_upstream_status status body provider endpoint).kind
            ≡ rate_limit_error)
          ↔ (status ≡ 429))
unfolding raise_for_upstream_status error_type
client_fault_exact status body provider endpoint = ground arith

-- The error for an answer about the bridge's credentials (401, 403), an unknown model (404) or a
-- missing endpoint (405) does not depend on the upstream's body, so nothing of it is repeated.
pub body_is_withheld :
    (status : ℕ) (body body' provider endpoint : String)
    → (((status ≡ 401) ⊎ (status ≡ 403)) ⊎ ((status ≡ 404) ⊎ (status ≡ 405)))
    → raise_for_upstream_status status body provider endpoint
      ≡ raise_for_upstream_status status body' provider endpoint
unfolding raise_for_upstream_status
body_is_withheld status body body' provider endpoint h = ground (arith, h)

before-none : (a : ℕ) (s : Text) → contains a s ≡ false → before a s ≡ s
unfolding contains before
before-none a [] h = refl
before-none a (c ∷ s) h = ground (arith, before-none a s)

-- No redacted URL holds a `?`; a URL whose path holds none is redacted to that path, whatever its
-- query, and a URL without a query is left as it is.
pub redact_url_exact :
    (url path query : Text)
    → contains b'?' path ≡ false
    → (contains b'?' (redact_url url) ≡ false)
      × (redact_url (path ++ b'?' ∷ query) ≡ path)
      × (redact_url path ≡ path)
unfolding redact_url
redact_url_exact url path query h =
    (contains-before b'?' url, before-append b'?' path query h, before-none b'?' path h)
