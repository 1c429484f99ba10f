-- ===== src/Errors.antt =====
-- errors.py: the typed errors, their HTTP status and OpenAI-shaped envelope. An f-string message is
-- the list of its pieces.
pub mod Wire
mod Tests
use openai_api_bridge.Prelude.{ℕ, String, Bool, true, false, Option, none, some, List, [], ◌∷◌}

-- a literal part of an f-string, a text that it interpolates, or a number that it interpolates
pub data Piece : Type 0 where
  lit : String → Piece
  text : String → Piece
  num : ℕ → Piece

abbrev pub Message : Type 0
Message = List Piece

-- `bridge_error` is the base class itself; each other constructor is a subclass
pub data ErrorKind : Type 0 where
  bridge_error unauthorized model_not_found provider_not_found image_required : ErrorKind
  unsupported_operation workflow_invalid invalid_request job_not_found video_queue_full : ErrorKind
  job_not_ready request_too_large upstream_error upstream_auth_error rate_limited : ErrorKind
  generation_timeout : ErrorKind

unfoldable pub status_code : ErrorKind → ℕ
status_code bridge_error = 500
status_code unauthorized = 401
status_code model_not_found = 404
status_code provider_not_found = 404
status_code image_required = 400
status_code unsupported_operation = 400
status_code workflow_invalid = 400
status_code invalid_request = 400
status_code job_not_found = 404
status_code video_queue_full = 429
status_code job_not_ready = 409
status_code request_too_large = 413
status_code upstream_error = 502
status_code upstream_auth_error = 502
status_code rate_limited = 429
status_code generation_timeout = 504

pub data ErrorType : Type 0 where
  api_error invalid_request_error rate_limit_error : ErrorType

unfoldable pub error_type : ErrorKind → ErrorType
error_type bridge_error = api_error
error_type upstream_error = api_error
error_type upstream_auth_error = api_error
error_type generation_timeout = api_error
error_type video_queue_full = rate_limit_error
error_type rate_limited = rate_limit_error
error_type _ = invalid_request_error

unfoldable pub code : ErrorKind → String
code bridge_error = "internal_error"
code unauthorized = "invalid_api_key"
code model_not_found = "model_not_found"
code provider_not_found = "provider_not_found"
code image_required = "image_required"
code unsupported_operation = "unsupported_operation"
code workflow_invalid = "workflow_invalid"
code invalid_request = "invalid_request"
code job_not_found = "not_found"
code video_queue_full = "video_queue_full"
code job_not_ready = "job_not_ready"
code request_too_large = "request_too_large"
code upstream_error = "upstream_error"
code upstream_auth_error = "upstream_auth_error"
code rate_limited = "rate_limit_exceeded"
code generation_timeout = "generation_timeout"

-- `isinstance(e, UpstreamError)`
unfoldable pub is_upstream_error : ErrorKind → Bool
is_upstream_error upstream_error = true
is_upstream_error upstream_auth_error = true
is_upstream_error rate_limited = true
is_upstream_error _ = false

pub record BridgeError : Type 0 where
  pub kind : ErrorKind
  pub message : Message
  pub param : Option String

-- What a coroutine may raise: a typed error, a cancellation (no `Exception`), a bare `TimeoutError`,
-- or any other exception, known by its type's name.
pub data Exc : Type 0 where
  bridge : BridgeError → Exc
  cancelled : Exc
  timeout_error : Exc
  other : String → Exc

-- `isinstance(e, Exception)`
unfoldable pub is_exception : Exc → Bool
is_exception cancelled = false
is_exception _ = true

-- `isinstance(e, UpstreamAuthError)`
unfoldable pub is_auth_error : Exc → Bool
is_auth_error (bridge e) = elim e.kind [ upstream_auth_error ↦ true | _ ↦ false ]
is_auth_error _ = false

pub data Outcome {ℓ} (A : Type ℓ) : Type ℓ where
  returned : A → Outcome A
  raised : Exc → Outcome A

pub record Envelope : Type 0 where
  pub message : Message
  pub type_ : ErrorType
  pub param : Option String
  pub code : Option String

pub record ErrorResponse : Type 0 where
  pub status : ℕ
  pub error : Envelope

unfoldable pub error_payload : Message → ErrorType → Option String → Option String → Envelope
error_payload message type_ code param = record {
  message = message;
  type_ = type_;
  param = param;
  code = code;
}

unfoldable pub bridge_error_handler : BridgeError → ErrorResponse
unfolding status_code error_type code error_payload
bridge_error_handler exc = record {
  status = status_code exc.kind;
  error = error_payload exc.message (error_type exc.kind) (some (code exc.kind)) exc.param;
}
