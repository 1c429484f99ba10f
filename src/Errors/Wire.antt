-- ===== src/Errors/Wire.antt =====
-- The error envelope that errors.py puts on the wire, against the status line it goes with.
use openai_api_bridge.Prelude.{◌≤◌, ◌<◌, ◌≡◌, ◌≢◌, ◌↔◌, refl, arith}
use openai_api_bridge.Errors.{
  BridgeError, ErrorKind, status_code, error_type, bridge_error_handler, api_error,
  invalid_request_error, rate_limit_error,
}

rate : (k : ErrorKind) → (error_type k ≡ rate_limit_error) ↔ (status_code k ≡ 429)
unfolding status_code error_type
rate k = ground arith

api : (k : ErrorKind) → (error_type k ≡ api_error) ↔ (500 ≤ status_code k)
unfolding status_code error_type
api k = ground arith

invalid :
    (k : ErrorKind)
    → (error_type k ≡ invalid_request_error)
      ↔ ((400 ≤ status_code k) × (status_code k < 500) × (status_code k ≢ 429))
unfolding status_code error_type
invalid k = ground arith

-- For every bridge error, the response's status and the envelope's type agree: the type is
-- `rate_limit_error` exactly at 429, `api_error` exactly at a status of 500 or above, and
-- `invalid_request_error` exactly at the other 4xx statuses; the message and the parameter are the
-- error's own.
pub envelope_agrees :
    (exc : BridgeError)
    → (((bridge_error_handler exc).error.type_ ≡ rate_limit_error)
        ↔ ((bridge_error_handler exc).status ≡ 429))
      × (((bridge_error_handler exc).error.type_ ≡ api_error)
          ↔ (500 ≤ (bridge_error_handler exc).status))
      × (((bridge_error_handler exc).error.type_ ≡ invalid_request_error) ↔ (
          (400 ≤ (bridge_error_handler exc).status)
          × ((bridge_error_handler exc).status < 500)
          × ((bridge_error_handler exc).status ≢ 429)))
      × ((bridge_error_handler exc).error.message ≡ exc.message)
      × ((bridge_error_handler exc).error.param ≡ exc.param)
unfolding bridge_error_handler
envelope_agrees exc = (rate exc.kind, api exc.kind, invalid exc.kind, refl, refl)
