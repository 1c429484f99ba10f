-- ===== src/Errors/Tests.antt =====
-- The envelope theorem at an error that a client sees.
use openai_api_bridge.Prelude.{◌≡◌, refl, none, [], ◌∷◌}
use openai_api_bridge.Errors.{BridgeError, rate_limited, lit, bridge_error_handler}

abbrev throttled : BridgeError
throttled = record { kind = rate_limited; message = lit "slow down" ∷ []; param = none }

throttled_status : (bridge_error_handler throttled).status ≡ 429
unfolding bridge_error_handler
throttled_status = refl
