-- ===== src/Http/Tests.antt =====
-- Fetches that fail, recover and are refused, and the theorems at them.
use openai_api_bridge.Prelude.{
  strip, before, ℕ, zero, suc, ◌≤◌, ◌<◌, ◌≡◌, ◌⊎◌, refl, true, false, none, some, [], ◌∷◌, codes,
  contains, arith,
}
use openai_api_bridge.Http.{
  Body, done, chunk, ok, too_large, aread, read_capped, Response, Attempt, failed, responded, asset,
  media_type, is_retriable_fetch_status, fetch_asset_with_retry,
}
use openai_api_bridge.Http.Capped.{read_capped_exact, read_capped_sound}
use openai_api_bridge.Http.Loop.{backoff, IsTransient, unreachable, refused}
use openai_api_bridge.Http.Retry.{attempts_are_bounded, transient_failures_clear}

abbrev unprocessable : ℕ
unprocessable = 422

path_is_plain : contains b'?' (codes "/a.png") ≡ false
unfolding contains
path_is_plain = refl

abbrev body : Body
body = chunk (codes "ab") (chunk (codes "c") done)

body_is_read : aread body ≡ ok (codes "abc")
unfolding aread
body_is_read = refl

body_is_kept : read_capped none body (some 3) ≡ ok (codes "abc")
unfolding read_capped
body_is_kept = refl

body_is_refused : read_capped none body (some 2) ≡ too_large 3
unfolding read_capped
body_is_refused = refl

read_capped_exact_example :
    ((3 ≤ 2) × (read_capped none body (some 2) ≡ ok (codes "abc")))
    ⊎ ((2 < 3) × ((n : ℕ) × (2 < n) × (read_capped none body (some 2) ≡ too_large n)))
read_capped_exact_example = read_capped_exact 2 none body (codes "abc") tt body_is_read

read_capped_sound_example : (aread body ≡ ok (codes "abc")) × (3 ≤ 3)
read_capped_sound_example = read_capped_sound 3 none body (codes "abc") body_is_kept

abbrev answer : ℕ → Response
answer status = record {
  status = status;
  content_type = some (codes "image/png; charset=x");
  content_length = some 3;
  body = body;
}

-- a dropped connection, a throttled answer, then the asset
abbrev flaky : ℕ → Attempt
flaky zero = failed
flaky (suc zero) = responded (answer 429)
flaky _ = responded (answer 200)

flaky_run :
    fetch_asset_with_retry (some 5) 3 1 flaky
    ≡ record { result = asset (codes "abc") (codes "image/png"); requests = 3; delays = 1 ∷ 2 ∷ [] }
unfolding fetch_asset_with_retry read_capped strip before
flaky_run = refl

answer_is_read : read_capped (some 3) body (some 5) ≡ ok (codes "abc")
unfolding read_capped
answer_is_read = refl

answer_is_retriable : is_retriable_fetch_status 429 ≡ true
unfolding is_retriable_fetch_status
answer_is_retriable = refl

flaky_is_transient : (i : ℕ) → i < 2 → IsTransient (some 5) (flaky i)
flaky_is_transient zero h = unreachable
flaky_is_transient (suc zero) h = refused answer_is_retriable
flaky_is_transient (suc (suc i)) h = ground arith

attempts_are_bounded_example :
    (n : ℕ) × (n < 3)
    × ((fetch_asset_with_retry (some 5) 3 1 flaky).requests ≡ suc n)
    × ((fetch_asset_with_retry (some 5) 3 1 flaky).delays ≡ backoff 1 0 n)
attempts_are_bounded_example = attempts_are_bounded (some 5) 3 1 flaky (omega arith)

transient_failures_clear_example :
    ((fetch_asset_with_retry (some 5) 3 1 flaky).result
      ≡ asset (codes "abc") (media_type (some (codes "image/png; charset=x"))))
    × ((fetch_asset_with_retry (some 5) 3 1 flaky).requests ≡ 3)
transient_failures_clear_example =
    transient_failures_clear (some 5) 3 1 flaky 2 (answer 200) (codes "abc") (omega arith)
      flaky_is_transient refl refl answer_is_read
