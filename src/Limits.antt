-- ===== src/Limits.antt =====
-- api/_limits.py: the ceiling on request bodies. The application below the middleware is a tree of
-- what it does next: it sends, or it awaits a message and goes on by what it gets. It may catch the
-- `_BodyTooLarge` that an awaited message raises, as FastAPI does, or let it through.
pub mod Cap
pub mod Crossing
mod Tests
use openai_api_bridge.Prelude.{
  ℕ, ◌+◌, Bool, true, false, Option, none, some, List, [], ◌∷◌, ◌++◌, ◌||◌, ◌&&◌, not, ltb, leb,
  if◌then◌else◌,
}

-- a message from the server, with the number of bytes that a body part carries
pub data Message : Type 0 where
  http_request : ℕ → Message
  http_disconnect : Message

-- a message of the application: `http.response.start` with its status, or a part of the body
pub data Response : Type 0 where
  response_start : ℕ → Response
  response_body : Response

-- `reads k caught` awaits a message: `k` goes on with it, and `caught` after a `_BodyTooLarge`.
-- `propagates` lets a `_BodyTooLarge` reach the middleware.
pub data App : Type 0 where
  returns : App
  propagates : App
  sends : Response → App → App
  reads : (Message → App) → App → App

-- what reaches the client: the 413 is whole, for a body of `n` bytes declared or received so far
pub data Sent : Type 0 where
  of_app : Response → Sent
  declared_too_large too_large : ℕ → Sent

-- the variables that the two wrappers share, what was sent, oldest first, and the bytes that the
-- application was given
pub record Connection : Type 0 where
  pub received : ℕ
  pub exceeded : ℕ
  pub response_started : Bool
  pub sent : List Sent
  pub delivered : ℕ

abbrev pub opened : Connection
opened = record { received = 0; exceeded = 0; response_started = false; sent = []; delivered = 0 }

-- how the middleware's call ends: it hands the request over unwrapped, it returns, or the exception
-- surfaces
pub data End : Type 0 where
  unwrapped ended surfaced : End

abbrev pub starts : Response → Bool
starts (response_start _) = true
starts response_body = false

-- `guarded_send`
unfoldable pub guarded_send : Response → Connection → Connection
guarded_send message c =
    if ltb 0 c.exceeded && not c.response_started
    then record c { response_started = true; sent = c.sent ++ too_large c.exceeded ∷ [] }
    else if ltb 0 c.exceeded
    then c
    else record c {
      response_started = c.response_started || starts message;
      sent = c.sent ++ of_app message ∷ [];
    }

-- the bytes of a message count towards the cap
unfoldable pub received_after : Message → Connection → Connection
received_after (http_request n) c = record c { received = c.received + n }
received_after http_disconnect c = c

abbrev pub size : Message → ℕ
size (http_request n) = n
size http_disconnect = 0

abbrev pub is_request : Message → Bool
is_request (http_request _) = true
is_request http_disconnect = false

-- the `except _BodyTooLarge` clause of the call; its error carries `received`
unfoldable pub answer_propagated : Connection → End × Connection
answer_propagated c =
    if c.response_started
    then (surfaced, c)
    else (ended, record c { response_started = true; sent = c.sent ++ too_large c.received ∷ [] })

-- `limited_receive`: the message, or none where it raises
unfoldable pub limited_receive : ℕ → Message → Connection → Option Message × Connection
unfolding received_after
limited_receive max_bytes message c =
    let c' = received_after message c in
    if is_request message && ltb max_bytes c'.received
    then (none, record c' { exceeded = c'.received })
    else (some message, record c' { delivered = c.delivered + size message })

-- the next message of the client, which has disconnected after the last one
abbrev pub next_message : List Message → Message
next_message [] = http_disconnect
next_message (m ∷ ms) = m

abbrev pub rest : List Message → List Message
rest [] = []
rest (m ∷ ms) = ms

-- the application under the two wrappers
unfoldable pub serve : ℕ → App → List Message → Connection → End × Connection
unfolding guarded_send answer_propagated
serve max_bytes returns incoming c = (ended, c)
serve max_bytes propagates incoming c = answer_propagated c
serve max_bytes (sends message app) incoming c =
    serve max_bytes app incoming (guarded_send message c)
serve max_bytes (reads k caught) incoming c =
    let (o, c') = limited_receive max_bytes (next_message incoming) c in
    elim o [
      | some message ↦ serve max_bytes (k message) (rest incoming) c'
      | none ↦ serve max_bytes caught (rest incoming) c'
    ]

-- `declared` is the `Content-Length`, none where it is absent or no number (a negative one, which
-- is below every cap, counts as none)
unfoldable pub call : ℕ → Bool → Option ℕ → App → List Message → End × Connection
unfolding serve
call max_bytes is_http declared app incoming =
    if not is_http || leb max_bytes 0 then (unwrapped, opened) else elim declared [
      | none ↦ serve max_bytes app incoming opened
      | some length ↦
          if ltb max_bytes length
          then (
            ended,
            record opened { response_started = true; sent = declared_too_large length ∷ [] },
          )
          else serve max_bytes app incoming opened
    ]
