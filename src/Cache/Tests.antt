-- ===== src/Cache/Tests.antt =====
-- Runs of the cache, and the theorems at them.
use openai_api_bridge.Prelude.{ℕ, ◌+◌, ◌≡◌, refl, none, some, [], ◌∷◌, arith}
use openai_api_bridge.Errors.{
  Exc, Outcome, returned, raised, bridge, cancelled, upstream_auth_error, is_exception,
}
use openai_api_bridge.Cache.{
  TtlCache, Readings, init, stale, store, note_failure, cooldown_for, get, get_all,
}
use openai_api_bridge.Cache.Burst.{burst_after_success, burst_after_failure}

program : Unit {0}
unfolding init cooldown_for get_all get is_exception stale
program = tt

-- an upstream that counts its calls
abbrev listing : ℕ → Outcome ℕ × ℕ
listing calls = (returned 7, calls + 1)

abbrev bad_key : Exc
bad_key = bridge (record { kind = upstream_auth_error; message = []; param = none })

abbrev rejecting : ℕ → Outcome ℕ × ℕ
rejecting calls = (raised bad_key, calls + 1)

abbrev dropped : ℕ → Outcome ℕ × ℕ
dropped calls = (raised cancelled, calls + 1)

abbrev cache : TtlCache ℕ
cache = init 300 30

abbrev reading : ℕ → Readings
reading t = record { for_fresh = t; for_failure = t; when_done = t + 2 }

-- the second caller is inside the window, the third is past it
three_calls : (get_all listing none cache 0 (reading 10 ∷ reading 311 ∷ reading 312 ∷ [])).2 ≡ 2
unfolding program
three_calls = refl

-- an incomplete listing, held for 30 ticks only
held_briefly :
    (get_all listing (some (λ v. 30)) cache 0 (reading 10 ∷ reading 41 ∷ reading 42 ∷ [])).2 ≡ 2
unfolding program
held_briefly = refl

-- a cancelled fetch is not remembered: the next caller fetches
cancelled_is_forgotten : (get_all dropped none cache 0 (reading 10 ∷ reading 11 ∷ [])).2 ≡ 2
unfolding program
cancelled_is_forgotten = refl

burst_after_success_example :
    get_all listing none cache 0 (reading 10 ∷ reading 200 ∷ [])
    ≡ (returned 7 ∷ returned 7 ∷ [], store cache 7 none 12, 1)
unfolding program
burst_after_success_example =
    burst_after_success listing none cache 0 1 7 (reading 10) (reading 200 ∷ []) refl refl refl
      (omega arith, omega arith, omega arith, omega arith, tt)

burst_after_failure_example :
    get_all rejecting none cache 0 (reading 10 ∷ reading 200 ∷ [])
    ≡ (raised bad_key ∷ raised bad_key ∷ [], note_failure cache bad_key 12, 1)
unfolding program
burst_after_failure_example =
    burst_after_failure rejecting none cache 0 1 bad_key (reading 10) (reading 200 ∷ []) refl refl
      refl refl (omega arith) (omega arith) (omega arith, omega arith, omega arith, omega arith, tt)
