-- ===== src/Http/Loop.antt =====
-- The retry loop of util/http.py, attempt by attempt: when it stops, when it goes on, and what it
-- ends with.
use openai_api_bridge.Prelude.{
  ℕ, zero, suc, ◌+◌, ◌*◌, ◌^◌, ◌≤◌, ◌<◌, ◌≡◌, refl, ap, ◌∙◌, ◌⊎◌, inl, inr, Bool, true, false,
  Option, List, [], ◌∷◌, ltb, ◌==◌, if◌then◌else◌, Text, arith,
}
use mathlib.Core.Path.{subst}
use openai_api_bridge.Errors.{ErrorKind, upstream_error, rate_limited}
use openai_api_bridge.Http.{
  Response, Attempt, failed, responded, Fetched, asset, raised, ok, http_error, read_capped,
  media_type, is_success, is_retriable_fetch_status, Next, stop, retry, judge, fetch_from,
}

-- the waits of exponential backoff: `base · 2^k`, `base · 2^(k + 1)`, …
unfoldable pub backoff : ℕ → ℕ → ℕ → List ℕ
backoff base_delay k zero = []
backoff base_delay k (suc n) = base_delay * 2 ^ k ∷ backoff base_delay (k + 1) n

pub Next-cases : (n : Next) → ((f : Fetched) × (n ≡ stop f)) ⊎ (n ≡ retry)
Next-cases (stop f) = inl (f, refl)
Next-cases retry = inr refl

-- a failure that another attempt may clear
pub data IsTransient (max_bytes : Option ℕ) : Attempt → Type 0 where
  unreachable : IsTransient max_bytes failed
  refused :
      {r : Response}
      → is_retriable_fetch_status r.status ≡ true
      → IsTransient max_bytes (responded r)
  cut_off :
      {r : Response}
      → is_success r.status ≡ true
      → read_capped r.content_length r.body max_bytes ≡ http_error
      → IsTransient max_bytes (responded r)

pub retriable-fails : (s : ℕ) → is_retriable_fetch_status s ≡ true → is_success s ≡ false
unfolding is_retriable_fetch_status
retriable-fails s h = ground arith

pub judge-hopeless :
    (max_bytes : Option ℕ) (again : Bool) (r : Response)
    → is_success r.status ≡ false
    → is_retriable_fetch_status r.status ≡ false
    → judge max_bytes again (responded r) ≡ stop (raised upstream_error)
unfolding judge is_retriable_fetch_status
judge-hopeless max_bytes again r h g = ground (arith, h, g)

-- the error type of an attempt that is not repeated
unfoldable pub last_error : Attempt → ErrorKind
last_error failed = upstream_error
last_error (responded r) = if r.status == 429 then rate_limited else upstream_error

module _ (max_bytes : Option ℕ) (base_delay : ℕ) (env : ℕ → Attempt) where
  pub judge-last : (a : Attempt) → ((f : Fetched) × (judge max_bytes false a ≡ stop f))
  unfolding judge
  judge-last failed = (raised upstream_error, refl)
  judge-last (responded r) = elim (Next-cases (judge max_bytes false (responded r))) [
    | inl found ↦ found
    | inr p ↦ ground (arith, p)
  ]

  pub judge-transient : (a : Attempt) → IsTransient max_bytes a → judge max_bytes true a ≡ retry
  unfolding judge
  judge-transient failed unreachable = refl
  judge-transient (responded r) (refused h) = ground (arith, h, retriable-fails r.status h)
  judge-transient (responded r) (cut_off h p) = ground (arith, h, p)

  pub fetch_from-stop :
      (attempt left : ℕ) (f : Fetched)
      → judge max_bytes (ltb 0 left) (env attempt) ≡ stop f
      → fetch_from max_bytes base_delay env attempt (suc left)
        ≡ record { result = f; requests = 1; delays = [] }
  unfolding fetch_from
  fetch_from-stop attempt left f h = ground (arith, h)

  pub fetch_from-retry :
      (attempt left : ℕ)
      → judge max_bytes (ltb 0 left) (env attempt) ≡ retry
      → fetch_from max_bytes base_delay env attempt (suc left) ≡ record {
        result = (fetch_from max_bytes base_delay env (attempt + 1) left).result;
        requests = suc (fetch_from max_bytes base_delay env (attempt + 1) left).requests;
        delays =
            base_delay * 2 ^ attempt
            ∷ (fetch_from max_bytes base_delay env (attempt + 1) left).delays;
      }
  unfolding fetch_from
  fetch_from-retry attempt left h = ground (arith, h)

  pub fetch_from-bounded :
      (attempt left : ℕ)
      → (n : ℕ) × (n ≤ left)
        × ((fetch_from max_bytes base_delay env attempt (suc left)).requests ≡ suc n)
        × ((fetch_from max_bytes base_delay env attempt (suc left)).delays
            ≡ backoff base_delay attempt n)
  unfolding backoff
  fetch_from-bounded attempt zero =
      let (f, p) = judge-last (env attempt) in
      let q = fetch_from-stop attempt 0 f p in
      (0, omega arith, ap (λ r. r.requests) q, ap (λ r. r.delays) q)
  fetch_from-bounded attempt (suc left) =
      elim (Next-cases (judge max_bytes (ltb 0 (suc left)) (env attempt))) [
        | inl (f, p) ↦
            let q = fetch_from-stop attempt (suc left) f p in
            (0, omega arith, ap (λ r. r.requests) q, ap (λ r. r.delays) q)
        | inr p ↦
            let (n, le, r, d) = fetch_from-bounded (attempt + 1) left in
            let q = fetch_from-retry attempt (suc left) p in
            (
              suc n,
              omega (arith, le),
              ap (λ r. r.requests) q ∙ ap suc r,
              ap (λ r. r.delays) q ∙ ap (λ ds. base_delay * 2 ^ attempt ∷ ds) d,
            )
      ]

  pub stays-transient :
      (attempt left : ℕ)
      → IsTransient max_bytes (env attempt)
      → judge max_bytes (ltb 0 (suc left)) (env attempt) ≡ retry
  stays-transient attempt left t =
      ap (λ b. judge max_bytes b (env attempt)) (ground arith) ∙ judge-transient (env attempt) t

  pub judge-good :
      (again : Bool) (a : Attempt) (r : Response) (d : Text)
      → a ≡ responded r
      → is_success r.status ≡ true
      → read_capped r.content_length r.body max_bytes ≡ ok d
      → judge max_bytes again a ≡ stop (asset d (media_type r.content_type))
  unfolding judge
  judge-good again a r d e h p = ap (judge max_bytes again) e ∙ ground (arith, h, p)

  pub recovers :
      (attempt left k : ℕ) (r : Response) (d : Text)
      → k < left
      → ((i : ℕ) → i < k → IsTransient max_bytes (env (attempt + i)))
      → env (attempt + k) ≡ responded r
      → is_success r.status ≡ true
      → read_capped r.content_length r.body max_bytes ≡ ok d
      → ((fetch_from max_bytes base_delay env attempt left).result
          ≡ asset d (media_type r.content_type))
        × ((fetch_from max_bytes base_delay env attempt left).requests ≡ suc k)
  recovers attempt zero k r d lt ts e h p = ground arith
  recovers attempt (suc left) zero r d lt ts e h p =
      let q =
        fetch_from-stop attempt left (asset d (media_type r.content_type))
          (judge-good (ltb 0 left) (env attempt) r d (ap env (omega arith) ∙ e) h p) in
      (ap (λ x. x.result) q, ap (λ x. x.requests) q)
  recovers attempt (suc zero) (suc k) r d lt ts e h p = ground arith
  recovers attempt (suc (suc left)) (suc k) r d lt ts e h p =
      let t = subst (λ i. IsTransient max_bytes (env i)) (omega arith) (ts 0 (omega arith)) in
      let q = fetch_from-retry attempt (suc left) (stays-transient attempt left t) in
      let (res, req) =
        recovers (attempt + 1) (suc left) k r d (omega arith)
          (λ i g.
            subst (λ j. IsTransient max_bytes (env j)) (omega arith) (ts (suc i) (omega arith)))
          (ap env (omega arith) ∙ e) h p in
      (ap (λ x. x.result) q ∙ res, ap (λ x. x.requests) q ∙ ap suc req)

  pub judge-last_transient :
      (a : Attempt)
      → IsTransient max_bytes a
      → judge max_bytes false a ≡ stop (raised (last_error a))
  unfolding judge last_error
  judge-last_transient failed unreachable = refl
  judge-last_transient (responded r) (refused h) = ground (arith, h, retriable-fails r.status h)
  judge-last_transient (responded r) (cut_off h p) = ground (arith, h, p)

  pub exhausts :
      (attempt left : ℕ)
      → ((i : ℕ) → i ≤ left → IsTransient max_bytes (env (attempt + i)))
      → ((fetch_from max_bytes base_delay env attempt (suc left)).result
          ≡ raised (last_error (env (attempt + left))))
        × ((fetch_from max_bytes base_delay env attempt (suc left)).requests ≡ suc left)
  exhausts attempt zero ts =
      let t = subst (λ i. IsTransient max_bytes (env i)) (omega arith) (ts 0 (omega arith)) in
      let q =
        fetch_from-stop attempt 0 (raised (last_error (env attempt)))
          (judge-last_transient (env attempt) t) in
      (
        ap (λ x. x.result) q ∙ ap (λ i. raised (last_error (env i))) (omega arith),
        ap (λ x. x.requests) q,
      )
  exhausts attempt (suc left) ts =
      let t = subst (λ i. IsTransient max_bytes (env i)) (omega arith) (ts 0 (omega arith)) in
      let q = fetch_from-retry attempt (suc left) (stays-transient attempt left t) in
      let (res, req) = exhausts (attempt + 1) left (λ i g.
        subst (λ j. IsTransient max_bytes (env j)) (omega arith) (ts (suc i) (omega arith))) in
      (
        ap (λ x. x.result) q ∙ res ∙ ap (λ i. raised (last_error (env i))) (omega arith),
        ap (λ x. x.requests) q ∙ ap suc req,
      )
