-- ===== src/Aspect/Snap.antt =====
-- What a requested ratio is snapped to in util/aspect.py.
use openai_api_bridge.Prelude.{
  ℕ, ◌≤◌, ◌≡◌, refl, sym, ap, ◌∙◌, ◌⊎◌, inl, inr, true, false, Option, none, some, List, [], ◌∷◌,
  ltb, if◌then◌else◌, on_test, Text, text_eq, Bool-cases, Option-cases, arith,
}
use openai_api_bridge.Json.{Json, text}
use openai_api_bridge.Aspect.{
  AspectRatio, parse_aspect_ratio, exactly, snap_parsed, parse_aspect_ratios, find_value, nearest,
  snap_to, snap_aspect_ratio,
}
use openai_api_bridge.Aspect.Spelling.{bare, parse_aspect_ratio-spelled}
use openai_api_bridge.Aspect.Menu.{
  IsIn, parse_aspect_ratios-IsMenu, IsIn-Canonical, find_value-menu,
}

abbrev or_this : AspectRatio → Option AspectRatio → AspectRatio
or_this d none = d
or_this d (some o) = o

find_value-IsIn :
    (v : Text) (r : AspectRatio) (os : List AspectRatio) → find_value v os ≡ some r → IsIn r os
unfolding find_value
find_value-IsIn v r [] h = ground arith
find_value-IsIn v r (o ∷ os) h = elim (Bool-cases (text_eq o.value' v)) [
  | inl q ↦ inl (ap (or_this r) (sym (ap (λ t. if t then some o else find_value v os) q) ∙ h))
  | inr q ↦
      inr (find_value-IsIn v r os (sym (ap (λ t. if t then some o else find_value v os) q) ∙ h))
]

snap_to-found :
    (distance : AspectRatio → AspectRatio → ℕ) (os : List AspectRatio) (o want : AspectRatio)
    → find_value want.value' os ≡ some o
    → snap_to distance os want ≡ some o
unfolding snap_to find_value
snap_to-found distance [] o want h = ground arith
snap_to-found distance (p ∷ os) o want h = ap (λ f. some (exactly f (nearest distance want p os))) h

nearer : {a b n q : ℕ} → ltb a b ≡ true → n ≤ a → b ≡ q → n ≤ q
nearer h le e = ground (arith, h, le, e)

no_nearer : {a b n q : ℕ} → ltb a b ≡ false → n ≤ b → a ≡ q → n ≤ q
no_nearer h le e = ground (arith, h, le, e)

module _ (distance : AspectRatio → AspectRatio → ℕ) where
  nearest-IsIn :
      (want best : AspectRatio) (os : List AspectRatio)
      → (nearest distance want best os ≡ best) ⊎ IsIn (nearest distance want best os) os
  unfolding nearest
  nearest-IsIn want best [] = inl refl
  nearest-IsIn want best (o ∷ os) =
      on_test (λ r. (r ≡ best) ⊎ ((o ≡ r) ⊎ IsIn r os)) (ltb (distance o want) (distance best want))
        {x = nearest distance want o os} {y = nearest distance want best os}
        (λ _. elim (nearest-IsIn want o os) [ inl q ↦ inr (inl (sym q)) | inr i ↦ inr (inr i) ])
        (λ _. elim (nearest-IsIn want best os) [ inl q ↦ inl q | inr i ↦ inr (inr i) ])

  nearest-le :
      (want best : AspectRatio) (os : List AspectRatio) (p : AspectRatio)
      → (best ≡ p) ⊎ IsIn p os
      → distance (nearest distance want best os) want ≤ distance p want
  unfolding nearest
  nearest-le want best [] p (inl q) = omega (arith, ap (λ r. distance r want) q)
  nearest-le want best [] p (inr i) = absurd i
  nearest-le want best (o ∷ os) p h =
      on_test (λ r. distance r want ≤ distance p want) (ltb (distance o want) (distance best want))
        {x = nearest distance want o os} {y = nearest distance want best os}
        (λ b. elim h [
          | inl q ↦ nearer b (nearest-le want o os o (inl refl)) (ap (λ r. distance r want) q)
          | inr i ↦ nearest-le want o os p i
        ])
        (λ b. elim h [
          | inl q ↦ nearest-le want best os p (inl q)
          | inr (inl q) ↦
              no_nearer b (nearest-le want best os best (inl refl)) (ap (λ r. distance r want) q)
          | inr (inr i) ↦ nearest-le want best os p (inr i)
        ])

-- A value that a client takes from the advertised menu selects exactly the option it was advertised
-- for, whatever the distances are: the menu is the one parsed from the declaration `raw`.
pub advertised_is_honoured :
    (distance : AspectRatio → AspectRatio → ℕ) (raw : Json) (o : AspectRatio)
    → IsIn o (parse_aspect_ratios raw)
    → snap_aspect_ratio distance (text o.value') (parse_aspect_ratios raw) ≡ some o
unfolding snap_aspect_ratio
advertised_is_honoured distance raw o i =
    let m = parse_aspect_ratios-IsMenu raw in
    let c = IsIn-Canonical o (parse_aspect_ratios raw) m i in
    ap (λ v. snap_parsed distance (parse_aspect_ratio (text v)) (parse_aspect_ratios raw))
      c.spelling
    ∙ ap (λ w. snap_parsed distance w (parse_aspect_ratios raw))
        (parse_aspect_ratio-spelled o.width o.height c.wide c.high c.width_small c.height_small)
    ∙ snap_to-found distance (parse_aspect_ratios raw) o (bare o.width o.height) (
        ap (λ v. find_value v (parse_aspect_ratios raw)) (sym c.spelling)
        ∙ find_value-menu o (parse_aspect_ratios raw) m i)

-- A request that is a ratio is always resolved where there are options: to an option, the first one of
-- the same canonical value if there is one, and otherwise to one that no option `p` is nearer than.
pub snap_is_nearest :
    (distance : AspectRatio → AspectRatio → ℕ) (requested : Json) (want o p : AspectRatio)
    (os : List AspectRatio)
    → parse_aspect_ratio requested ≡ some want
    → IsIn p (o ∷ os)
    → (r : AspectRatio) × (snap_aspect_ratio distance requested (o ∷ os) ≡ some r)
      × IsIn r (o ∷ os)
      × ((find_value want.value' (o ∷ os) ≡ some r)
          ⊎ ((find_value want.value' (o ∷ os) ≡ none) × (distance r want ≤ distance p want)))
unfolding snap_aspect_ratio snap_to
snap_is_nearest distance requested want o p os h i =
    let start = ap (λ w. snap_parsed distance w (o ∷ os)) h in
    elim (Option-cases (find_value want.value' (o ∷ os))) [
      | inl q ↦ (
        nearest distance want o os,
        start ∙ ap (λ f. some (exactly f (nearest distance want o os))) q,
        elim (nearest-IsIn distance want o os) [ inl e ↦ inl (sym e) | inr j ↦ inr j ],
        inr (q, nearest-le distance want o os p i),
      )
      | inr (r, q) ↦ (
        r,
        start ∙ ap (λ f. some (exactly f (nearest distance want o os))) q,
        find_value-IsIn want.value' r (o ∷ os) q,
        inl q,
      )
    ]
