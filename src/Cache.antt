-- ===== src/Cache.antt =====
-- util/cache.py: `AsyncTTLCache`, a single value with a TTL and a remembered failure. Times are
-- natural numbers of clock ticks. Each method takes the clock's reading where it reads the clock.
pub mod Window
pub mod Burst
mod Tests
use openai_api_bridge.Prelude.{
  ℕ, ◌-◌, max, min, Option, none, some, List, [], ◌∷◌, leb, if◌then◌else◌,
}
use openai_api_bridge.Errors.{Exc, Outcome, returned, raised, is_exception, is_auth_error}

pub record TtlCache (A : Type 0) : Type 0 where
  pub ttl_seconds : ℕ
  pub failure_cooldown_seconds : ℕ
  pub value : Option A
  pub stored_at : Option ℕ
  pub stored_ttl : ℕ
  pub failure : Option Exc
  pub failed_at : Option ℕ

abbrev pub auth_failure_cooldown_seconds : ℕ
auth_failure_cooldown_seconds = 300

module _ {A : Type 0} where
  unfoldable pub init : ℕ → ℕ → TtlCache A
  init ttl_seconds failure_cooldown_seconds = record {
    ttl_seconds = ttl_seconds;
    failure_cooldown_seconds = failure_cooldown_seconds;
    value = none;
    stored_at = none;
    stored_ttl = ttl_seconds;
    failure = none;
    failed_at = none;
  }

  unfoldable pub fresh : TtlCache A → ℕ → Option A
  fresh c now = elim c.value [
    | none ↦ none
    | some v ↦ elim c.stored_at [
      | none ↦ none
      | some at ↦
          if leb c.stored_ttl 0 then none else if leb c.stored_ttl (now - at) then none else some v
    ]
  ]

  unfoldable pub stale : TtlCache A → Option A
  stale c = if leb c.stored_ttl 0 then none else c.value

  unfoldable pub requested_ttl : TtlCache A → Option ℕ → ℕ
  requested_ttl c none = c.ttl_seconds
  requested_ttl c (some t) = t

  unfoldable pub store : TtlCache A → A → Option ℕ → ℕ → TtlCache A
  unfolding requested_ttl
  store c value ttl_seconds now = record c {
    value = some value;
    stored_at = some now;
    stored_ttl = min (requested_ttl c ttl_seconds) c.ttl_seconds;
    failure = none;
    failed_at = none;
  }

  unfoldable pub note_failure : TtlCache A → Exc → ℕ → TtlCache A
  note_failure c error now = record c { failure = some error; failed_at = some now }

  unfoldable pub cooldown_for : TtlCache A → Exc → ℕ
  unfolding is_auth_error
  cooldown_for c error =
      if is_auth_error error
      then max c.failure_cooldown_seconds auth_failure_cooldown_seconds
      else c.failure_cooldown_seconds

  unfoldable pub pending_failure : TtlCache A → ℕ → Option Exc
  unfolding cooldown_for
  pending_failure c now = elim c.failure [
    | none ↦ none
    | some e ↦ elim c.failed_at [
      | none ↦ none
      | some at ↦
          if leb c.failure_cooldown_seconds 0
          then none
          else if leb (cooldown_for c e) (now - at)
          then none
          else some e
    ]
  ]

  -- `ttl_for(value) if ttl_for else None`
  unfoldable pub ttl_of : Option (A → ℕ) → A → Option ℕ
  ttl_of none v = none
  ttl_of (some f) v = some (f v)

  -- What `get` does with the fetch's outcome, at the clock reading `now`. Only an `Exception` is
  -- remembered: a cancellation is not.
  unfoldable pub settle : Option (A → ℕ) → TtlCache A → Outcome A → ℕ → Outcome A × TtlCache A
  unfolding store note_failure ttl_of is_exception
  settle ttl_for c (returned v) now = (returned v, store c v (ttl_of ttl_for v) now)
  settle ttl_for c (raised e) now = (raised e, if is_exception e then note_failure c e now else c)

-- The clock readings of one call of `get`, in the order in which it takes them.
pub record Readings : Type 0 where
  pub for_fresh : ℕ
  pub for_failure : ℕ
  pub when_done : ℕ

-- `get` holds the lock throughout, so calls follow one another. `W` is what the fetch acts on.
module _ {A W : Type 0} (fetch : W → Outcome A × W) (ttl_for : Option (A → ℕ)) where
  unfoldable pub get : TtlCache A → W → Readings → Outcome A × TtlCache A × W
  unfolding settle fresh pending_failure
  get c w r = elim (fresh c r.for_fresh) [
    | some v ↦ (returned v, c, w)
    | none ↦ elim (pending_failure c r.for_failure) [
      | some e ↦ (raised e, c, w)
      | none ↦
          let (o, w') = fetch w in let (o', c') = settle ttl_for c o r.when_done in (o', c', w')
    ]
  ]

  -- A burst of callers, in the order in which they take the lock.
  unfoldable pub get_all : TtlCache A → W → List Readings → List (Outcome A) × TtlCache A × W
  get_all c w [] = ([], c, w)
  get_all c w (r ∷ rs) =
      let (o, c', w') = get c w r in let (os, c'', w'') = get_all c' w' rs in (o ∷ os, c'', w'')
