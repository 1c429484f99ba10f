-- ===== src/Http.antt =====
-- util/http.py: the mapping of an upstream's status onto the bridge's errors, and the download of a
-- generated asset. What the HTTP client yields on each attempt is the environment's choice.
pub mod Status
pub mod Loop
pub mod Retry
pub mod Capped
mod Tests
use openai_api_bridge.Prelude.{
  ℕ, zero, suc, ◌+◌, ◌-◌, ◌*◌, ◌^◌, String, Bool, true, false, Option, none, some, List, [], ◌∷◌,
  ◌++◌, ◌&&◌, ◌||◌, not, ltb, leb, ◌==◌, if◌then◌else◌, length, Text, codes, before, strip,
}
use openai_api_bridge.Errors.{
  Piece, lit, text, num, Message, ErrorKind, invalid_request, unsupported_operation, upstream_error,
  upstream_auth_error, rate_limited, BridgeError,
}

abbrev error : ErrorKind → Message → BridgeError
error kind message = record { kind = kind; message = message; param = none }

-- the error that it raises
unfoldable pub raise_for_upstream_status : ℕ → String → String → String → BridgeError
raise_for_upstream_status status body provider endpoint =
    if status == 401 || status == 403
    then error upstream_auth_error (
        text provider
        ∷ lit " rejected our credentials ("
        ∷ num status
        ∷ lit ") on "
        ∷ text endpoint
        ∷ [])
    else if status == 404
    then error invalid_request (
        text provider
        ∷ lit " "
        ∷ text endpoint
        ∷ lit " returned 404 — model not found upstream"
        ∷ [])
    else if status == 405
    then error unsupported_operation
        (text provider ∷ lit " does not implement " ∷ text endpoint ∷ [])
    else if status == 429
    then error rate_limited (
        text provider ∷ lit " " ∷ text endpoint ∷ lit " rate-limited the bridge: " ∷ text body ∷ [])
    else if leb 400 status && ltb status 500
    then error invalid_request (
        text provider
        ∷ lit " "
        ∷ text endpoint
        ∷ lit " returned "
        ∷ num status
        ∷ lit ": "
        ∷ text body
        ∷ [])
    else error upstream_error (
        text provider
        ∷ lit " "
        ∷ text endpoint
        ∷ lit " returned "
        ∷ num status
        ∷ lit ": "
        ∷ text body
        ∷ [])

unfoldable pub is_retriable_fetch_status : ℕ → Bool
is_retriable_fetch_status status =
    status == 401
    || status == 404
    || status == 408
    || status == 425
    || status == 429
    || (leb 500 status && not (status == 501))

unfoldable pub redact_url : Text → Text
redact_url url = before b'?' url

-- the bytes of a response, chunk by chunk; a stream may break with an `HTTPError`
pub data Body : Type 0 where
  done broken : Body
  chunk : Text → Body → Body

-- what is raised while an attempt runs: an `HTTPError`, which the loop catches, or a bridge error
pub data Read (A : Type 0) : Type 0 where
  ok : A → Read A
  http_error : Read A
  too_large : ℕ → Read A

-- `response.aread()`
unfoldable pub aread : Body → Read Text
aread done = ok []
aread broken = http_error
aread (chunk bytes b) = elim (aread b) [
  | ok data' ↦ ok (bytes ++ data')
  | http_error ↦ http_error
  | too_large n ↦ too_large n
]

-- the counting loop: `parts` is what was kept so far, joined
unfoldable pub read_chunks : ℕ → ℕ → Text → Body → Read Text
read_chunks max_bytes received parts done = ok parts
read_chunks max_bytes received parts broken = http_error
read_chunks max_bytes received parts (chunk bytes b) =
    let received' = received + length bytes in
    let rest = read_chunks max_bytes received' (parts ++ bytes) b in
    if ltb max_bytes received' then too_large received' else rest

-- `_read_capped`; `declared` is the `Content-Length`, none where it is absent or no number of bytes
unfoldable pub read_capped : Option ℕ → Body → Option ℕ → Read Text
unfolding aread read_chunks
read_capped declared body none = aread body
read_capped none body (some max_bytes) = read_chunks max_bytes 0 [] body
read_capped (some length) body (some max_bytes) =
    if ltb max_bytes length then too_large length else read_chunks max_bytes 0 [] body

pub record Response : Type 0 where
  pub status : ℕ
  pub content_type : Option Text
  pub content_length : Option ℕ
  pub body : Body

-- one attempt: the request itself fails with an `HTTPError`, or a response arrives
pub data Attempt : Type 0 where
  failed : Attempt
  responded : Response → Attempt

pub data Fetched : Type 0 where
  asset : Text → Text → Fetched
  raised : ErrorKind → Fetched

-- the result, the requests made and the delays slept, oldest first; of an error only its type is
-- kept
pub record Run : Type 0 where
  pub result : Fetched
  pub requests : ℕ
  pub delays : List ℕ

abbrev pub media_type : Option Text → Text
media_type none = codes "application/octet-stream"
media_type (some header) = strip (before b';' header)

abbrev pub is_success : ℕ → Bool
is_success status = leb 200 status && ltb status 300

-- what the loop does after an attempt
pub data Next : Type 0 where
  stop : Fetched → Next
  retry : Next

abbrev pub or_retry : Bool → Fetched → Next
or_retry again last = if again then retry else stop last

-- the body of the loop; `again` is `attempt < max_attempts - 1`
unfoldable pub judge : Option ℕ → Bool → Attempt → Next
unfolding is_retriable_fetch_status
judge max_bytes again failed = or_retry again (raised upstream_error)
judge max_bytes again (responded r) =
    if not (is_success r.status)
    then or_retry (is_retriable_fetch_status r.status && again)
        (raised (if r.status == 429 then rate_limited else upstream_error))
    else elim (read_capped r.content_length r.body max_bytes) [
      | ok bytes ↦ stop (asset bytes (media_type r.content_type))
      | http_error ↦ or_retry again (raised upstream_error)
      | too_large _ ↦ stop (raised upstream_error)
    ]

-- the loop from attempt number `attempt`, with `left` attempts to go
unfoldable pub fetch_from : Option ℕ → ℕ → (ℕ → Attempt) → ℕ → ℕ → Run
unfolding judge
fetch_from max_bytes base_delay env attempt zero = record {
  result = raised upstream_error;
  requests = 0;
  delays = [];
}
fetch_from max_bytes base_delay env attempt (suc left) =
    let r = fetch_from max_bytes base_delay env (attempt + 1) left in
    elim (judge max_bytes (ltb 0 left) (env attempt)) [
      | stop f ↦ record { result = f; requests = 1; delays = [] }
      | retry ↦ record {
        result = r.result;
        requests = suc r.requests;
        delays = base_delay * 2 ^ attempt ∷ r.delays;
      }
    ]

-- `fetch_asset_with_retry`
unfoldable pub fetch_asset_with_retry : Option ℕ → ℕ → ℕ → (ℕ → Attempt) → Run
unfolding fetch_from
fetch_asset_with_retry max_bytes max_attempts base_delay env =
    fetch_from max_bytes base_delay env 0 max_attempts
