-- ===== src/Cache/Window.antt =====
-- How long a value and a failure are kept, and the invariant of the cache.
use openai_api_bridge.Prelude.{
  ℕ, ◌-◌, ◌≤◌, min, ◌≡◌, refl, inl, inr, Option, none, some, arith, ltb, leb, if◌then◌else◌,
  Option-cases, Bool-cases,
}
use openai_api_bridge.Errors.{Exc, Outcome, returned, raised, is_exception}
use openai_api_bridge.Cache.{
  TtlCache, Readings, init, fresh, stale, requested_ttl, store, note_failure, cooldown_for,
  pending_failure, settle, get, ttl_of,
}

-- both fields of a pair are set, or neither is
abbrev pub BothOrNeither : {A B : Type 0} → Option A → Option B → Type 0
BothOrNeither none none = Unit
BothOrNeither (some _) (some _) = Unit
BothOrNeither _ _ = ⊥

pub record IsValid {A : Type 0} (c : TtlCache A) : Type 0 where
  pub clamped : c.stored_ttl ≤ c.ttl_seconds
  pub stamped : BothOrNeither c.value c.stored_at
  pub dated : BothOrNeither c.failure c.failed_at

module _ {A : Type 0} where
  -- A stored value is served exactly while its age is below the smaller of the requested TTL and
  -- the configured one: an override may only shorten the window.
  pub fresh-store :
      (c : TtlCache A) (v : A) (ttl : Option ℕ) (at now : ℕ)
      → fresh (store c v ttl at) now
        ≡ (if ltb (now - at) (min (requested_ttl c ttl) c.ttl_seconds) then some v else none)
  unfolding fresh store
  fresh-store c v none at now = ground arith
  fresh-store c v (some t) at now = ground arith

  -- A remembered failure is re-raised exactly while its age is below its own cooldown, and never
  -- where the configured cooldown is zero.
  pub pending_failure-note_failure :
      (c : TtlCache A) (e : Exc) (at now : ℕ)
      → pending_failure (note_failure c e at) now ≡ (
          if leb c.failure_cooldown_seconds 0
          then none
          else if ltb (now - at) (cooldown_for c e)
          then some e
          else none)
  unfolding pending_failure note_failure
  pending_failure-note_failure c e at now = ground arith

  pub init-IsValid : (ttl cooldown : ℕ) → IsValid (init {A = A} ttl cooldown)
  unfolding init
  init-IsValid ttl cooldown = record { clamped = omega arith; stamped = tt; dated = tt }

  store-IsValid : (c : TtlCache A) (v : A) (o : Option ℕ) (now : ℕ) → IsValid (store c v o now)
  unfolding store
  store-IsValid c v none now = record { clamped = omega arith; stamped = tt; dated = tt }
  store-IsValid c v (some t) now = record { clamped = omega arith; stamped = tt; dated = tt }

  settle-IsValid :
      (f : Option (A → ℕ)) (c : TtlCache A) (o : Outcome A) (now : ℕ)
      → IsValid c
      → IsValid (settle f c o now).1
  unfolding settle
  settle-IsValid f c (returned v) now h = store-IsValid c v (ttl_of f v) now
  settle-IsValid f c (raised e) now h = elim (Bool-cases (is_exception e)) [
    | inl p ↦ rw p (record { clamped = h.clamped; stamped = h.stamped; dated = tt })
    | inr p ↦ rw p h
  ]

  -- The configuration that no method writes.
  config-settle :
      (f : Option (A → ℕ)) (c : TtlCache A) (o : Outcome A) (now : ℕ)
      → ((settle f c o now).1.ttl_seconds ≡ c.ttl_seconds)
        × ((settle f c o now).1.failure_cooldown_seconds ≡ c.failure_cooldown_seconds)
  unfolding settle
  config-settle f c (returned v) now = (refl, refl)
  config-settle f c (raised e) now = ground arith

  -- With a TTL of zero nothing is served from memory, neither as fresh nor as stale.
  pub zero_ttl_serves_nothing :
      (c : TtlCache A) (now : ℕ)
      → IsValid c
      → c.ttl_seconds ≡ 0
      → (fresh c now ≡ none) × (stale c ≡ none)
  unfolding fresh stale
  zero_ttl_serves_nothing c now h z = (ground (arith, h.clamped), ground (arith, h.clamped))

  -- A value that has aged out stays aged out.
  pub fresh-later : (c : TtlCache A) (s t : ℕ) → s ≤ t → fresh c s ≡ none → fresh c t ≡ none
  unfolding fresh
  fresh-later c s t le h = ground arith

module _ {A W : Type 0} (fetch : W → Outcome A × W) (ttl_for : Option (A → ℕ)) where
  -- `get` keeps the invariant and the configuration, whatever the fetch does.
  pub get-IsValid :
      (c : TtlCache A) (w : W) (r : Readings)
      → IsValid c
      → IsValid (get fetch ttl_for c w r).1
        × ((get fetch ttl_for c w r).1.ttl_seconds ≡ c.ttl_seconds)
        × ((get fetch ttl_for c w r).1.failure_cooldown_seconds ≡ c.failure_cooldown_seconds)
  unfolding get
  get-IsValid c w r h = elim (Option-cases (fresh c r.for_fresh)) [
    | inr (v, p) ↦ rw (p, get) (h, refl, refl)
    | inl p ↦ elim (Option-cases (pending_failure c r.for_failure)) [
      | inr (e, q) ↦ rw (p, q, get) (h, refl, refl)
      | inl q ↦
          rw (p, q, get)
            (
              settle-IsValid ttl_for c (fetch w).0 r.when_done h,
              (config-settle ttl_for c (fetch w).0 r.when_done).0,
              (config-settle ttl_for c (fetch w).0 r.when_done).1,
            )
    ]
  ]
