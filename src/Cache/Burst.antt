-- ===== src/Cache/Burst.antt =====
-- A burst of callers costs at most one fetch.
use openai_api_bridge.Prelude.{
  ℕ, ◌+◌, ◌-◌, ◌≤◌, ◌<◌, min, ◌≡◌, refl, true, Option, none, some, List, [], ◌∷◌, map, arith,
  lt→ltb,
}
use openai_api_bridge.Errors.{Exc, Outcome, returned, raised, is_exception}
use openai_api_bridge.Cache.{
  TtlCache, Readings, fresh, requested_ttl, store, note_failure, cooldown_for, pending_failure,
  settle, ttl_of, get, get_all,
}
use openai_api_bridge.Cache.Window.{fresh-store, pending_failure-note_failure, fresh-later}

-- every call of the burst reads the clock in `[start, end)`
abbrev pub Within : ℕ → ℕ → List Readings → Type 0
Within start end [] = Unit
Within start end (r ∷ rs) =
    (start ≤ r.for_fresh)
    × (r.for_fresh < end)
    × (start ≤ r.for_failure)
    × (r.for_failure < end)
    × Within start end rs

abbrev pub all_same : {A : Type 0} → A → List Readings → List A
all_same a = map (λ _. a)

module _ {A W : Type 0} (fetch : W → Outcome A × W) (ttl_for : Option (A → ℕ)) where
  -- while the value is fresh, callers read it and nothing changes
  served :
      (c : TtlCache A) (w : W) (v : A) (start end : ℕ)
      → ((t : ℕ) → start ≤ t → t < end → fresh c t ≡ some v)
      → (rs : List Readings) → Within start end rs
      → get_all fetch ttl_for c w rs ≡ (all_same (returned v) rs, c, w)
  unfolding get_all get
  served c w v start end h [] k = refl
  served c w v start end h (r ∷ rs) k =
      rw (h r.for_fresh k.0 k.1, get) (rw (served c w v start end h rs k.4))

  -- while a failure is remembered and nothing is fresh, callers are refused and nothing changes
  refused :
      (c : TtlCache A) (w : W) (e : Exc) (start end : ℕ)
      → ((t : ℕ) → start ≤ t → t < end → fresh c t ≡ none)
      → ((t : ℕ) → start ≤ t → t < end → pending_failure c t ≡ some e)
      → (rs : List Readings) → Within start end rs
      → get_all fetch ttl_for c w rs ≡ (all_same (raised e) rs, c, w)
  unfolding get_all get
  refused c w e start end f h [] k = refl
  refused c w e start end f h (r ∷ rs) k =
      rw (f r.for_fresh k.0 k.1, h r.for_failure k.2 k.3, get)
        (rw (refused c w e start end f h rs k.4))

  -- A call that finds nothing fresh and no failure pending, and whose fetch returns `v`, fetches
  -- once. Every later caller that reads the clock inside the window gets `v` without a fetch.
  pub burst_after_success :
      (c : TtlCache A) (w w' : W) (v : A) (r : Readings) (rs : List Readings)
      → fresh c r.for_fresh ≡ none
      → pending_failure c r.for_failure ≡ none
      → fetch w ≡ (returned v, w')
      → Within r.when_done (r.when_done + min (requested_ttl c (ttl_of ttl_for v)) c.ttl_seconds) rs
      → get_all fetch ttl_for c w (r ∷ rs)
        ≡ (all_same (returned v) (r ∷ rs), store c v (ttl_of ttl_for v) r.when_done, w')
  unfolding get_all get settle
  burst_after_success c w w' v r rs p q f k =
      rw (p, q, f, get)
        (rw (
          served (store c v (ttl_of ttl_for v) r.when_done) w' v r.when_done
            (r.when_done + min (requested_ttl c (ttl_of ttl_for v)) c.ttl_seconds)
            (λ t lo hi. rw fresh-store (
              rw (
                lt→ltb (t - r.when_done) (min (requested_ttl c (ttl_of ttl_for v)) c.ttl_seconds)
                  (omega arith))))
            rs k))

  -- A call that finds nothing fresh and no failure pending, and whose fetch raises an `Exception`,
  -- fetches once. Every later caller inside the error's cooldown is refused with the same error,
  -- without a fetch, if the configured cooldown is not zero.
  pub burst_after_failure :
      (c : TtlCache A) (w w' : W) (e : Exc) (r : Readings) (rs : List Readings)
      → fresh c r.for_fresh ≡ none
      → pending_failure c r.for_failure ≡ none
      → fetch w ≡ (raised e, w')
      → is_exception e ≡ true
      → 0 < c.failure_cooldown_seconds
      → r.for_fresh ≤ r.when_done
      → Within r.when_done (r.when_done + cooldown_for c e) rs
      → get_all fetch ttl_for c w (r ∷ rs)
        ≡ (all_same (raised e) (r ∷ rs), note_failure c e r.when_done, w')
  unfolding get_all get settle
  burst_after_failure c w w' e r rs p q f x pos le k =
      rw (p, q, f, get, x)
        (rw (
          refused (note_failure c e r.when_done) w' e r.when_done (r.when_done + cooldown_for c e)
            (λ t lo hi. unfold note_failure fresh in fresh-later c r.for_fresh t (omega arith) p)
            (λ t lo hi.
              rw pending_failure-note_failure
                (rw (lt→ltb (t - r.when_done) (cooldown_for c e) (omega arith)) (ground arith)))
            rs k))
