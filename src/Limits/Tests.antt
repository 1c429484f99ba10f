-- ===== src/Limits/Tests.antt =====
-- Requests under the cap, and the theorems at them.
use openai_api_bridge.Prelude.{◌≤◌, ◌≡◌, refl, [], ◌∷◌}
use openai_api_bridge.Limits.{
  http_request, response_start, response_body, App, returns, sends, reads, of_app, too_large,
  opened, limited_receive, serve, call,
}
use openai_api_bridge.Limits.Cap.{IsOneAnswer, cap_holds}
use openai_api_bridge.Limits.Crossing.{crossing, crossing_is_answered}

program : Unit {0}
unfolding call limited_receive
program = tt

-- a route that reads two parts, swallows the error and answers 400, as FastAPI does
abbrev swallows : App
swallows = sends (response_start 400) (sends response_body returns)

abbrev answers : App
answers = sends (response_start 200) (sends response_body returns)

abbrev route : App
route = reads (λ m. reads (λ m'. answers) swallows) swallows

within :
    (serve 10 route (http_request 4 ∷ http_request 6 ∷ []) opened).1.sent
    ≡ of_app (response_start 200) ∷ of_app response_body ∷ []
unfolding program
within = refl

over : (serve 10 route (http_request 4 ∷ http_request 7 ∷ []) opened).1.sent ≡ too_large 11 ∷ []
unfolding program
over = refl

cap_holds_example :
    ((serve 10 route (http_request 4 ∷ http_request 7 ∷ []) opened).1.delivered ≤ 10)
    × IsOneAnswer 10 (serve 10 route (http_request 4 ∷ http_request 7 ∷ []) opened).1.sent
cap_holds_example =
    cap_holds 10 route (http_request 4 ∷ http_request 7 ∷ [])
      (λ m. (λ m'. (refl, tt), (refl, tt)), (refl, tt))

crossing_is_answered_example :
    (serve 10 route (http_request 4 ∷ http_request 7 ∷ []) opened).1.sent ≡ too_large 11 ∷ []
unfolding crossing
crossing_is_answered_example =
    crossing_is_answered 10 11 route swallows (http_request 4 ∷ http_request 7 ∷ []) refl tt
