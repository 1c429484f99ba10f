-- ===== src/Auth/Gate.antt =====
-- Which requests pass the gate.
use openai_api_bridge.Prelude.{
  ◌≡◌, ap, ◌↔◌, ◌∙◌, inl, inr, true, false, Option, none, some, List, ◌++◌, arith, Text, text_eq,
  after_prefix, text_eq_refl, text_eq_sound, after_prefix-append, after_prefix_sound, Option-cases,
  Bool-cases,
}
use openai_api_bridge.Errors.{ErrorResponse}
use openai_api_bridge.Auth.{
  bearer, check_bearer, Scope, forwarded, refused, is_exempt, authenticate,
}

passes : (header key : Text) → check_bearer (some header) key ≡ none → header ≡ bearer ++ key
unfolding check_bearer
passes header key h = elim (Option-cases (after_prefix bearer header)) [
  | inl p ↦ absurd (cc (rw (p, check_bearer) at h))
  | inr (presented, p) ↦ elim (Bool-cases (text_eq presented key)) [
    | inl q ↦
        after_prefix_sound bearer header presented p
        ∙ ap (◌++◌ bearer) (text_eq_sound presented key q)
    | inr q ↦ absurd (ground arith)
  ]
]

accepts : (header key : Text) → header ≡ bearer ++ key → check_bearer (some header) key ≡ none
unfolding check_bearer
accepts header key h =
    let p : after_prefix bearer header ≡ some key =
      ap (after_prefix bearer) h ∙ after_prefix-append bearer key in
    rw (p, check_bearer) (rw (text_eq_refl key))

-- A header is accepted exactly if it is `Bearer `, then the key, and nothing else.
pub check_bearer_exact :
    (authorization : Option Text) (key : Text)
    → (check_bearer authorization key ≡ none) ↔ (authorization ≡ some (bearer ++ key))
unfolding check_bearer
check_bearer_exact none key = (λ h. cc, λ h. cc)
check_bearer_exact (some header) key =
    (λ h. ap some (passes header key h), λ h. accepts header key (ground arith))

-- An HTTP request to a path that is not exempt reaches the application exactly if its header is
-- `Bearer ` and the key. In any other case it is answered with a 401.
pub gate_exact :
    (key : Text) (exempt : List Text) (scope : Scope)
    → scope.is_http ≡ true
    → is_exempt scope.path exempt ≡ false
    → ((authenticate key exempt scope ≡ forwarded) ↔ (scope.authorization ≡ some (bearer ++ key)))
      × ((r : ErrorResponse) → authenticate key exempt scope ≡ refused r → r.status ≡ 401)
unfolding authenticate
gate_exact key exempt scope http guarded =
    elim (Option-cases (check_bearer scope.authorization key)) [
      | inl p ↦ (
        (
          λ h. (check_bearer_exact scope.authorization key).0 p,
          λ h. rw (http, guarded) (rw (p, authenticate)),
        ),
        λ r h. absurd (ground arith),
      )
      | inr (reason, p) ↦ (
        (
          λ h. absurd (ground arith),
          λ h. absurd (cc (p, (check_bearer_exact scope.authorization key).1 h)),
        ),
        λ r h. ground arith,
      )
    ]
