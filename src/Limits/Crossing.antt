-- ===== src/Limits/Crossing.antt =====
-- What the client sees of a body that passes the cap before the response starts.
use mathlib.Core.Path.{subst}
use openai_api_bridge.Prelude.{
  ℕ, ◌+◌, ◌<◌, ◌≡◌, refl, sym, ap, ◌∙◌, inl, inr, Bool, true, false, ◌&&◌, if◌then◌else◌, Option,
  none, some, List, [], ◌∷◌, ltb, arith, Bool-cases, Option-cases,
}
use openai_api_bridge.Limits.{
  size, is_request, Message, http_request, http_disconnect, Response, App, returns, propagates,
  sends, reads, too_large, Connection, opened, guarded_send, answer_propagated, limited_receive,
  next_message, rest, serve,
}

-- The sum at which the parts pass the cap before the application has sent anything or ended, and what
-- the application does once it is told: found by adding up the messages alone.
unfoldable pub crossing : ℕ → ℕ → App → List Message → Option (App × ℕ)
crossing max total returns incoming = none
crossing max total propagates incoming = none
crossing max total (sends m app) incoming = none
crossing max total (reads k caught) incoming =
    let m = next_message incoming in
    let n = total + size m in
    let later = crossing max n (k m) (rest incoming) in
    if is_request m && ltb max n then some (caught, n) else later

-- told of the error, the application lets it through, or sends something before all else
abbrev pub IsAnswering : App → Type 0
IsAnswering propagates = Unit
IsAnswering (sends m app) = Unit
IsAnswering returns = ⊥
IsAnswering (reads k caught) = ⊥

-- nothing is sent, and the cap is not passed
record IsQuiet (total : ℕ) (c : Connection) : Type 0 where
  counted : c.received ≡ total
  within : c.exceeded ≡ 0
  unanswered : c.response_started ≡ false
  silent : c.sent ≡ []

guarded_send_closed :
    (m : Response) (c : Connection)
    → 0 < c.exceeded
    → c.response_started ≡ true
    → guarded_send m c ≡ c
unfolding guarded_send
guarded_send_closed m c o s = ground (arith, o, s)

answer_propagated_closed :
    (c : Connection) → c.response_started ≡ true → (answer_propagated c).1 ≡ c
unfolding answer_propagated
answer_propagated_closed c s = ground (arith, s)

limited_receive_closed :
    (max : ℕ) (m : Message) (c : Connection)
    → 0 < c.exceeded
    → (0 < (limited_receive max m c).1.exceeded)
      × ((limited_receive max m c).1.response_started ≡ c.response_started)
      × ((limited_receive max m c).1.sent ≡ c.sent)
unfolding limited_receive
limited_receive_closed max http_disconnect c o = (o, refl, refl)
limited_receive_closed max (http_request n) c o = elim (Bool-cases (ltb max (c.received + n))) [
  | inl p ↦ rw p (ground arith, refl, refl)
  | inr p ↦ rw p (o, refl, refl)
]

-- after the 413 nothing more reaches the client
serve_closed :
    (max : ℕ) (app : App) (incoming : List Message) (c : Connection)
    → 0 < c.exceeded
    → c.response_started ≡ true
    → (serve max app incoming c).1.sent ≡ c.sent
unfolding serve
serve_closed max returns incoming c o s = refl
serve_closed max propagates incoming c o s = ap (λ x. x.sent) (answer_propagated_closed c s)
serve_closed max (sends m app) incoming c o s =
    ap (λ x. (serve max app incoming x).1.sent) (guarded_send_closed m c o s)
    ∙ serve_closed max app incoming c o s
serve_closed max (reads k caught) incoming c o s =
    let m = next_message incoming in
    let c' = (limited_receive max m c).1 in
    let r = limited_receive_closed max m c o in
    elim (Option-cases (limited_receive max m c).0) [
      | inl p ↦ rw (p, serve) (serve_closed max caught (rest incoming) c' r.0 (r.1 ∙ s) ∙ r.2)
      | inr (message, p) ↦
          rw (p, serve) (serve_closed max (k message) (rest incoming) c' r.0 (r.1 ∙ s) ∙ r.2)
    ]

-- the cap was just passed, at a sum of `total`
record IsOver (total : ℕ) (c : Connection) : Type 0 where
  counted : c.received ≡ total
  exceeding : c.exceeded ≡ total
  positive : 0 < total
  unanswered : c.response_started ≡ false
  silent : c.sent ≡ []

limited_receive-IsOver :
    (max total : ℕ) (m : Message) (c : Connection)
    → IsQuiet total c
    → is_request m && ltb max (total + size m) ≡ true
    → ((limited_receive max m c).0 ≡ none) × IsOver (total + size m) (limited_receive max m c).1
unfolding limited_receive
limited_receive-IsOver max total http_disconnect c q h = absurd (ground arith)
limited_receive-IsOver max total (http_request n) c q h =
    let p : ltb max (c.received + n) ≡ true = ap (λ t. ltb max (t + n)) q.counted ∙ h in
    rw p (
      refl,
      record {
        counted = ap (λ t. t + n) q.counted;
        exceeding = ap (λ t. t + n) q.counted;
        positive = ground (arith, h);
        unanswered = q.unanswered;
        silent = q.silent;
      },
    )

limited_receive-IsQuiet :
    (max total : ℕ) (m : Message) (c : Connection)
    → IsQuiet total c
    → is_request m && ltb max (total + size m) ≡ false
    → ((limited_receive max m c).0 ≡ some m) × IsQuiet (total + size m) (limited_receive max m c).1
unfolding limited_receive
limited_receive-IsQuiet max total http_disconnect c q h = (
  refl,
  record {
    counted = omega (arith, q.counted);
    within = q.within;
    unanswered = q.unanswered;
    silent = q.silent;
  },
)
limited_receive-IsQuiet max total (http_request n) c q h =
    let p : ltb max (c.received + n) ≡ false = ap (λ t. ltb max (t + n)) q.counted ∙ h in
    rw p (
      refl,
      record {
        counted = ap (λ t. t + n) q.counted;
        within = q.within;
        unanswered = q.unanswered;
        silent = q.silent;
      },
    )

answer_propagated-IsOver :
    (n : ℕ) (c : Connection) → IsOver n c → (answer_propagated c).1.sent ≡ too_large n ∷ []
unfolding answer_propagated
answer_propagated-IsOver n c v = rw (v.unanswered, v.silent, v.counted) refl

guarded_send-IsOver :
    (n : ℕ) (m : Response) (c : Connection)
    → IsOver n c
    → ((guarded_send m c).sent ≡ too_large n ∷ [])
      × (0 < (guarded_send m c).exceeded)
      × ((guarded_send m c).response_started ≡ true)
unfolding guarded_send
guarded_send-IsOver n m c v =
    let o : ltb 0 c.exceeded ≡ true = ground (arith, v.exceeding, v.positive) in
    rw o (rw (v.unanswered, v.silent, v.exceeding) (refl, v.positive, refl))

serve-IsOver :
    (max n : ℕ) (caught : App) (incoming : List Message) (c : Connection)
    → IsAnswering caught
    → IsOver n c
    → (serve max caught incoming c).1.sent ≡ too_large n ∷ []
unfolding serve
serve-IsOver max n returns incoming c a v = absurd a
serve-IsOver max n propagates incoming c a v = answer_propagated-IsOver n c v
serve-IsOver max n (sends m app) incoming c a v =
    let g = guarded_send-IsOver n m c v in
    serve_closed max app incoming (guarded_send m c) g.1 g.2 ∙ g.0
serve-IsOver max n (reads k caught) incoming c a v = absurd a

abbrev chosen : App × ℕ → Option (App × ℕ) → App × ℕ
chosen d none = d
chosen d (some x) = x

serve-crossing :
    (max total n : ℕ) (app caught : App) (incoming : List Message) (c : Connection)
    → IsQuiet total c
    → crossing max total app incoming ≡ some (caught, n)
    → IsAnswering caught
    → (serve max app incoming c).1.sent ≡ too_large n ∷ []
unfolding serve crossing
serve-crossing max total n returns caught incoming c q h a = cc
serve-crossing max total n propagates caught incoming c q h a = cc
serve-crossing max total n (sends m app) caught incoming c q h a = cc
serve-crossing max total n (reads k told) caught incoming c q h a =
    let m = next_message incoming in
    let later = crossing max (total + size m) (k m) (rest incoming) in
    let c' = (limited_receive max m c).1 in
    let found = λ (b : Bool). if b then some (told, total + size m) else later in
    elim (Bool-cases (is_request m && ltb max (total + size m))) [
      | inl p ↦
          let e = ap (chosen (told, total + size m)) (sym (ap found p) ∙ h) in
          let (none_left, over) = limited_receive-IsOver max total m c q p in
          rw (none_left, serve)
            (serve-IsOver max (total + size m) told (rest incoming) c'
                (subst IsAnswering (sym (ap (λ x. x.0) e)) a) over
              ∙ ap (λ x. too_large x.1 ∷ []) e)
      | inr p ↦
          let (passed, quiet) = limited_receive-IsQuiet max total m c q p in
          rw (passed, serve)
            (serve-crossing max (total + size m) n (k m) caught (rest incoming) c' quiet
              (sym (ap found p) ∙ h) a)
    ]

-- The first time the parts of a body pass the cap in sum before the application has sent anything,
-- and the application lets the error through, or catches it and then sends something (and does
-- anything at all after that), the client sees one 413 alone, for that sum.
pub crossing_is_answered :
    (max n : ℕ) (app caught : App) (incoming : List Message)
    → crossing max 0 app incoming ≡ some (caught, n)
    → IsAnswering caught
    → (serve max app incoming opened).1.sent ≡ too_large n ∷ []
crossing_is_answered max n app caught incoming =
    serve-crossing max 0 n app caught incoming opened
      (record { counted = refl; within = refl; unanswered = refl; silent = refl })
