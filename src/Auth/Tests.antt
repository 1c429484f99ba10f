-- ===== src/Auth/Tests.antt =====
-- Requests at the gate, and the theorems at them.
use openai_api_bridge.Prelude.{
  ◌≡◌, refl, ◌↔◌, true, false, Option, none, some, List, [], ◌∷◌, ◌++◌, Text, codes,
}
use openai_api_bridge.Prelude
use openai_api_bridge.Errors.{ErrorResponse}
use openai_api_bridge.Auth.{
  bearer, check_bearer, Scope, forwarded, refused, is_exempt, authenticate,
}
use openai_api_bridge.Auth.Gate.{gate_exact}

program : Unit {0}
unfolding check_bearer is_exempt authenticate
program = tt

abbrev key : Text
key = codes "secret"

abbrev request : Scope
request = record {
  is_http = true;
  path = codes "/v1/models";
  authorization = some (codes "Bearer secret");
}

let_in : authenticate key [] request ≡ forwarded
unfolding program Prelude.text_eq Prelude.after_prefix
let_in = refl

gate_exact_example :
    ((authenticate key [] request ≡ forwarded) ↔ (request.authorization ≡ some (bearer ++ key)))
    × ((r : ErrorResponse) → authenticate key [] request ≡ refused r → r.status ≡ 401)
unfolding program
gate_exact_example = gate_exact key [] request refl refl
