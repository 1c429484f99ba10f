-- ===== src/Limits/Cap.antt =====
-- What the application is given, and what the client sees.
use openai_api_bridge.Prelude.{
  ℕ, ◌+◌, ◌≤◌, ◌<◌, ◌≡◌, refl, ◌⊎◌, inl, inr, Bool, true, false, none, some, List, [], ◌∷◌, ◌++◌,
  ltb, arith, Bool-cases, Option-cases,
}
use openai_api_bridge.Limits.{
  Message, http_request, http_disconnect, Response, response_start, response_body, App, returns,
  propagates, sends, reads, Sent, of_app, declared_too_large, too_large, Connection, opened, starts,
  guarded_send, answer_propagated, limited_receive, next_message, rest, serve, call,
}

-- The application sends no part of a body before its response starts, and what reaches the middleware
-- as a `_BodyTooLarge` is one that was raised.
abbrev pub IsOrderly : Bool → Bool → App → Type 0
IsOrderly started crossed returns = Unit
IsOrderly started crossed propagates = crossed ≡ true
IsOrderly started crossed (sends (response_start n) app) = IsOrderly true crossed app
IsOrderly started crossed (sends response_body app) =
    (started ≡ true) × IsOrderly started crossed app
IsOrderly started crossed (reads k caught) =
    ((m : Message) → IsOrderly started crossed (k m)) × IsOrderly started true caught

abbrev pub IsOfApp : List Sent → Type 0
IsOfApp [] = Unit
IsOfApp (of_app _ ∷ l) = IsOfApp l
IsOfApp (_ ∷ l) = ⊥

-- The client sees the application's own messages alone, or the 413 alone.
abbrev pub IsOneAnswer : ℕ → List Sent → Type 0
IsOneAnswer max l = IsOfApp l ⊎ ((n : ℕ) × (l ≡ too_large n ∷ []) × (max < n))

pub record IsCapped (max : ℕ) (c : Connection) : Type 0 where
  pub counted : c.delivered ≤ c.received
  pub capped : c.delivered ≤ max
  pub crossed : (c.exceeded ≡ 0) ⊎ (max < c.exceeded)
  pub counted_over : c.exceeded ≤ c.received
  pub answer : IsOneAnswer max c.sent
  pub silent : c.response_started ≡ false → c.sent ≡ []
  -- after the 413 nothing more of the application's is sent
  pub closed : (c.exceeded ≡ 0) → IsOfApp c.sent

IsOfApp-snoc : (l : List Sent) (r : Response) → IsOfApp l → IsOfApp (l ++ of_app r ∷ [])
IsOfApp-snoc [] r h = tt
IsOfApp-snoc (of_app x ∷ l) r h = IsOfApp-snoc l r h
IsOfApp-snoc (declared_too_large x ∷ l) r h = absurd h
IsOfApp-snoc (too_large x ∷ l) r h = absurd h

guarded_send-IsCapped :
    (max : ℕ) (m : Response) (c : Connection)
    → (c.response_started ≡ false → starts m ≡ true)
    → IsCapped max c
    → IsCapped max (guarded_send m c)
unfolding guarded_send
guarded_send-IsCapped max m c o h = elim (Bool-cases (ltb 0 c.exceeded)) [
  | inl p ↦ elim (Bool-cases c.response_started) [
    | inl q ↦ rw p (simp q h)
    | inr q ↦ rw p (
        rw q (record {
          counted = h.counted;
          capped = h.capped;
          crossed = h.crossed;
          counted_over = h.counted_over;
          answer = inr (c.exceeded, rw (h.silent q), ground (arith, h.crossed));
          silent = λ e. cc;
          closed = λ e. absurd (ground arith);
        }))
  ]
  | inr p ↦ rw p (record {
    counted = h.counted;
    capped = h.capped;
    crossed = h.crossed;
    counted_over = h.counted_over;
    answer = inl (IsOfApp-snoc c.sent m (h.closed (ground arith)));
    silent = λ e. absurd (ground (arith, o));
    closed = λ e. IsOfApp-snoc c.sent m (h.closed e);
  })
]

limited_receive-IsCapped :
    (max : ℕ) (m : Message) (c : Connection)
    → IsCapped max c
    → IsCapped max (limited_receive max m c).1
unfolding limited_receive
limited_receive-IsCapped max http_disconnect c h = record {
  counted = omega (arith, h.counted);
  capped = omega (arith, h.capped);
  crossed = h.crossed;
  counted_over = h.counted_over;
  answer = h.answer;
  silent = h.silent;
  closed = h.closed;
}
limited_receive-IsCapped max (http_request n) c h = elim (Bool-cases (ltb max (c.received + n))) [
  | inl p ↦ rw p (record {
    counted = omega (arith, h.counted);
    capped = h.capped;
    crossed = inr (ground arith);
    counted_over = omega arith;
    answer = h.answer;
    silent = h.silent;
    closed = λ e. absurd (ground arith);
  })
  | inr p ↦ rw p (record {
    counted = omega (arith, h.counted);
    capped = ground (arith, h.counted);
    crossed = h.crossed;
    counted_over = omega (arith, h.counted_over);
    answer = h.answer;
    silent = h.silent;
    closed = h.closed;
  })
]

-- what the message did besides: nothing to what was sent, and a refused one crossed the cap
limited_receive_rest :
    (max : ℕ) (m : Message) (c : Connection)
    → ((limited_receive max m c).1.response_started ≡ c.response_started)
      × (c.exceeded ≤ (limited_receive max m c).1.exceeded
          ⊎ (max < (limited_receive max m c).1.exceeded))
      × ((limited_receive max m c).0 ≡ none → 0 < (limited_receive max m c).1.exceeded)
unfolding limited_receive
limited_receive_rest max http_disconnect c = (refl, inl (omega arith), λ e. cc)
limited_receive_rest max (http_request n) c = elim (Bool-cases (ltb max (c.received + n))) [
  | inl p ↦ rw p (refl, inr (ground arith), λ e. ground arith)
  | inr p ↦ rw p (refl, inl (omega arith), λ e. cc)
]

answer_propagated-IsCapped :
    (max : ℕ) (c : Connection)
    → 0 < c.exceeded
    → IsCapped max c
    → IsCapped max (answer_propagated c).1
unfolding answer_propagated
answer_propagated-IsCapped max c o h = elim (Bool-cases c.response_started) [
  | inl q ↦ simp q h
  | inr q ↦ rw q (record {
    counted = h.counted;
    capped = h.capped;
    crossed = h.crossed;
    counted_over = h.counted_over;
    answer = inr (c.received, rw (h.silent q), ground (arith, h.crossed, h.counted_over));
    silent = λ e. cc;
    closed = λ e. absurd (omega arith);
  })
]

guarded_send_rest :
    (m : Response) (c : Connection)
    → ((guarded_send m c).exceeded ≡ c.exceeded)
      × (starts m ≡ true → (guarded_send m c).response_started ≡ true)
      × (c.response_started ≡ true → (guarded_send m c).response_started ≡ true)
unfolding guarded_send
guarded_send_rest m c = (ground arith, λ e. ground arith, λ e. ground arith)

serve-IsCapped :
    (max : ℕ) (started crossed : Bool) (app : App) (incoming : List Message) (c : Connection)
    → IsOrderly started crossed app
    → (started ≡ true → c.response_started ≡ true)
    → (crossed ≡ true → 0 < c.exceeded)
    → IsCapped max c
    → IsCapped max (serve max app incoming c).1
unfolding serve
serve-IsCapped max started crossed returns incoming c o s x h = h
serve-IsCapped max started crossed propagates incoming c o s x h =
    answer_propagated-IsCapped max c (x o) h
serve-IsCapped max started crossed (sends (response_start n) app) incoming c o s x h =
    let r = guarded_send_rest (response_start n) c in
    serve-IsCapped max true crossed app incoming (guarded_send (response_start n) c) o
      (λ e. r.1 refl) (λ e. rw r.0 (x e))
      (guarded_send-IsCapped max (response_start n) c (λ e. refl) h)
serve-IsCapped max started crossed (sends response_body app) incoming c o s x h =
    let r = guarded_send_rest response_body c in
    serve-IsCapped max started crossed app incoming (guarded_send response_body c) o.1
      (λ e. r.2 (s e)) (λ e. rw r.0 (x e))
      (guarded_send-IsCapped max response_body c (λ e. let t = s o.0 in cc (t, e)) h)
serve-IsCapped max started crossed (reads k caught) incoming c o s x h =
    let m = next_message incoming in
    let c' = (limited_receive max m c).1 in
    let r = limited_receive_rest max m c in
    let h' = limited_receive-IsCapped max m c h in
    let s' : started ≡ true → c'.response_started ≡ true = λ e. rw r.0 (s e) in
    elim (Option-cases (limited_receive max m c).0) [
      | inl p ↦
          rw (p, serve)
            (serve-IsCapped max started true caught (rest incoming) c' o.1 s' (λ e. r.2 p) h')
      | inr (message, p) ↦
          rw (p, serve)
            (serve-IsCapped max started crossed (k message) (rest incoming) c' (o.0 message) s'
              (λ e. let y = x e in omega (arith, y, r.1)) h')
    ]

opened-IsCapped : (max : ℕ) → IsCapped max opened
opened-IsCapped max = record {
  counted = omega arith;
  capped = omega arith;
  crossed = inl refl;
  counted_over = omega arith;
  answer = inl tt;
  silent = λ e. refl;
  closed = λ e. tt;
}

-- Whatever the client sends, the application is given at most the cap, and the client sees either
-- messages of the application alone or one 413 alone, for a body past the cap. The application may
-- swallow the error or let it through; it sends no body before its response starts.
pub cap_holds :
    (max : ℕ) (app : App) (incoming : List Message)
    → IsOrderly false false app
    → ((serve max app incoming opened).1.delivered ≤ max)
      × IsOneAnswer max (serve max app incoming opened).1.sent
cap_holds max app incoming o =
    let h =
      serve-IsCapped max false false app incoming opened o (λ e. cc) (λ e. cc)
        (opened-IsCapped max) in
    (h.capped, h.answer)

-- A declared length past the cap is refused before the application runs. One within it, or none,
-- lets the application run under the cap.
pub declared_exact :
    (max length : ℕ) (app : App) (incoming : List Message)
    → 0 < max
    → (max < length
        → (call max true (some length) app incoming).1.delivered ≡ 0
          × (call max true (some length) app incoming).1.sent ≡ declared_too_large length ∷ [])
      × (length ≤ max → call max true (some length) app incoming ≡ serve max app incoming opened)
      × (call max true none app incoming ≡ serve max app incoming opened)
unfolding call
declared_exact max length app incoming pos =
    (λ h. (ground arith, ground arith), λ h. ground arith, ground arith)
