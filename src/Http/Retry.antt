-- ===== src/Http/Retry.antt =====
-- The retry loop of util/http.py, `fetch_asset_with_retry`: how often it asks, how long it waits and
-- when it stops.
use openai_api_bridge.Prelude.{
  ℕ, zero, suc, ◌≤◌, ◌<◌, ◌≡◌, ap, ◌∙◌, true, false, Option, [], ltb, Text, arith,
}
use mathlib.Core.Path.{subst}
use openai_api_bridge.Errors.{upstream_error}
use openai_api_bridge.Http.{
  Response, Attempt, responded, asset, raised, ok, read_capped, media_type, is_success,
  is_retriable_fetch_status, judge, fetch_asset_with_retry,
}
use openai_api_bridge.Http.Loop.{
  backoff, IsTransient, judge-hopeless, last_error, fetch_from-stop, fetch_from-bounded, recovers,
  exhausts,
}

-- Whatever the upstream does, a fetch that is allowed at least one attempt makes at least one
-- request and at most `max_attempts`, and between two requests it waits `base_delay · 2^k`, for
-- k = 0, 1, …: one wait fewer than requests.
pub attempts_are_bounded :
    (max_bytes : Option ℕ) (max_attempts base_delay : ℕ) (env : ℕ → Attempt)
    → 0 < max_attempts
    → (n : ℕ) × (n < max_attempts)
      × ((fetch_asset_with_retry max_bytes max_attempts base_delay env).requests ≡ suc n)
      × ((fetch_asset_with_retry max_bytes max_attempts base_delay env).delays
          ≡ backoff base_delay 0 n)
unfolding fetch_asset_with_retry
attempts_are_bounded max_bytes zero base_delay env h = ground arith
attempts_are_bounded max_bytes (suc max_attempts) base_delay env h =
    let (n, le, q, d) = fetch_from-bounded max_bytes base_delay env 0 max_attempts in
    (n, omega (arith, le), q, d)

-- If the first `k` attempts, fewer than `max_attempts`, fail in a way that may clear, and the next
-- one answers 2xx with a body that the capped read accepts, the fetch returns that body, with the
-- media type of its header, after `k + 1` requests.
pub transient_failures_clear :
    (max_bytes : Option ℕ) (max_attempts base_delay : ℕ) (env : ℕ → Attempt) (k : ℕ) (r : Response)
    (d : Text)
    → k < max_attempts
    → ((i : ℕ) → i < k → IsTransient max_bytes (env i))
    → env k ≡ responded r
    → is_success r.status ≡ true
    → read_capped r.content_length r.body max_bytes ≡ ok d
    → ((fetch_asset_with_retry max_bytes max_attempts base_delay env).result
        ≡ asset d (media_type r.content_type))
      × ((fetch_asset_with_retry max_bytes max_attempts base_delay env).requests ≡ suc k)
unfolding fetch_asset_with_retry
transient_failures_clear max_bytes max_attempts base_delay env k r d lt ts e h p =
    recovers max_bytes base_delay env 0 max_attempts k r d lt
      (λ i g. subst (λ j. IsTransient max_bytes (env j)) (omega arith) (ts i g))
      (ap env (omega arith) ∙ e) h p

-- If every attempt fails in a way that may clear, all of them are made, and the error has the type
-- of the last failure: a rate limit where that was a 429, an upstream error otherwise.
pub exhausted_exact :
    (max_bytes : Option ℕ) (n base_delay : ℕ) (env : ℕ → Attempt)
    → ((i : ℕ) → i ≤ n → IsTransient max_bytes (env i))
    → ((fetch_asset_with_retry max_bytes (suc n) base_delay env).result
        ≡ raised (last_error (env n)))
      × ((fetch_asset_with_retry max_bytes (suc n) base_delay env).requests ≡ suc n)
unfolding fetch_asset_with_retry
exhausted_exact max_bytes n base_delay env ts =
    let (res, req) =
      exhausts max_bytes base_delay env 0 n
        (λ i g. subst (λ j. IsTransient max_bytes (env j)) (omega arith) (ts i g)) in
    (res ∙ ap (λ i. raised (last_error (env i))) (omega arith), req)

-- If the first response has a status outside 2xx that no retry can clear (a redirect that was not
-- followed, a 400, a 403, a 501), the fetch fails after that one request, without a wait.
pub hopeless_stops :
    (max_bytes : Option ℕ) (n base_delay : ℕ) (env : ℕ → Attempt) (r : Response)
    → env 0 ≡ responded r
    → is_success r.status ≡ false
    → is_retriable_fetch_status r.status ≡ false
    → fetch_asset_with_retry max_bytes (suc n) base_delay env
      ≡ record { result = raised upstream_error; requests = 1; delays = [] }
unfolding fetch_asset_with_retry
hopeless_stops max_bytes n base_delay env r e h g =
    fetch_from-stop max_bytes base_delay env 0 n (raised upstream_error)
      (ap (judge max_bytes (ltb 0 n)) e ∙ judge-hopeless max_bytes (ltb 0 n) r h g)
