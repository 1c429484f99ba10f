-- ===== src/Fal/Pairs.antt =====
-- What the pairs of halves are.
use openai_api_bridge.Prelude.{
  ℕ, ◌≡◌, refl, sym, ap, ◌∙◌, inl, inr, Bool, true, Option, none, some, List, [], ◌∷◌,
  if◌then◌else◌, Text, codes, text_eq, text_eq_refl, text_eq_sound, Bool-cases, on_test, arith,
}
use openai_api_bridge.Models.{assign, find}
use openai_api_bridge.Models.Lookup.{find-assign}
use openai_api_bridge.Fal.{
  Catalogue, category_of, is_category, first_partner, partner_of, route_in, route_of, variant_pair,
  variant_candidates, Routes, add_route, pair_each, pair_variants,
}

-- the two kinds of pairs
pub data IsPair (by_id : Catalogue) (id partner : Text) : Type 0 where
  images :
      category_of by_id id ≡ some (codes "text-to-image")
      → category_of by_id partner ≡ some (codes "image-to-image")
      → IsPair by_id id partner
  videos :
      category_of by_id id ≡ some (codes "text-to-video")
      → category_of by_id partner ≡ some (codes "image-to-video")
      → IsPair by_id id partner

is_category_sound : (c : Text) (o : Option Text) → is_category c o ≡ true → o ≡ some c
is_category_sound c none h = absurd (cc)
is_category_sound c (some d) h = ap some (text_eq_sound d c h)

-- a predicate of what an optional text holds
abbrev pub Every : (Text → Type 0) → Option Text → Type 0
Every P none = Unit
Every P (some t) = P t

first_partner-category :
    (by_id : Catalogue) (partner : Text) (cs : List Text)
    → Every (λ c. category_of by_id c ≡ some partner) (first_partner by_id partner cs)
unfolding first_partner
first_partner-category by_id partner [] = tt
first_partner-category by_id partner (c ∷ cs) =
    on_test (Every (λ c. category_of by_id c ≡ some partner))
      (is_category partner (category_of by_id c))
      (λ h. is_category_sound partner (category_of by_id c) h)
      (λ _. first_partner-category by_id partner cs)

Every-map :
    (P Q : Text → Type 0) (o : Option Text) → ((t : Text) → P t → Q t) → Every P o → Every Q o
Every-map P Q none f h = tt
Every-map P Q (some t) f h = f t h

route_in-IsPair :
    (by_id : Catalogue) (id : Text) (o : Option Text)
    → category_of by_id id ≡ o
    → Every (IsPair by_id id) (route_in by_id id o)
unfolding variant_pair
route_in-IsPair by_id id none e = tt
route_in-IsPair by_id id (some c) e =
    on_test (λ p. Every (IsPair by_id id) (partner_of by_id (variant_candidates id c) p))
      (text_eq c (codes "text-to-image"))
      (λ p.
        Every-map _ _ (first_partner by_id (codes "image-to-image") (variant_candidates id c))
          (λ t h. images (e ∙ ap some (text_eq_sound c (codes "text-to-image") p)) h)
          (first_partner-category by_id (codes "image-to-image") (variant_candidates id c)))
      (λ _.
        on_test (λ p. Every (IsPair by_id id) (partner_of by_id (variant_candidates id c) p))
          (text_eq c (codes "text-to-video"))
          (λ p.
            Every-map _ _ (first_partner by_id (codes "image-to-video") (variant_candidates id c))
              (λ t h. videos (e ∙ ap some (text_eq_sound c (codes "text-to-video") p)) h)
              (first_partner-category by_id (codes "image-to-video") (variant_candidates id c)))
          (λ _. tt))

pub route_of-IsPair : (by_id : Catalogue) (id : Text) → Every (IsPair by_id id) (route_of by_id id)
unfolding route_of
route_of-IsPair by_id id = route_in-IsPair by_id id (category_of by_id id) refl

abbrev first_letter : Option Text → ℕ
first_letter none = 0
first_letter (some []) = 0
first_letter (some (c ∷ s)) = c

abbrev IsDriven : ℕ → Option Text → Type 0
IsDriven a o = first_letter o ≡ a

text-IsDriven :
    (by_id : Catalogue) (a b : Text) → IsPair by_id a b → IsDriven b't' (category_of by_id a)
text-IsDriven by_id a b (images p q) = ap first_letter p
text-IsDriven by_id a b (videos p q) = ap first_letter p

image-IsDriven :
    (by_id : Catalogue) (a b : Text) → IsPair by_id a b → IsDriven b'i' (category_of by_id b)
image-IsDriven by_id a b (images p q) = ap first_letter q
image-IsDriven by_id a b (videos p q) = ap first_letter q

-- no id is the image-driven half of one pair and the text-driven half of another
pub halves_differ : (by_id : Catalogue) (a b c : Text) → IsPair by_id a b → IsPair by_id b c → ⊥
halves_differ by_id a b c p q =
    absurd (omega (arith, image-IsDriven by_id a b p, text-IsDriven by_id b c q))

-- a model of which the id is the partner, with its route
abbrev pub IsReached : Catalogue → List (Text × Text) → Text → Type 0
IsReached by_id routes c = (m : Text) × (find m routes ≡ some c) × (route_of by_id m ≡ some c)

-- every id that is dropped is reached through another
abbrev pub AreReached : Catalogue → List (Text × Text) → List Text → Type 0
AreReached by_id routes [] = Unit
AreReached by_id routes (c ∷ cs) = IsReached by_id routes c × AreReached by_id routes cs

module _ (by_id : Catalogue) (k v : Text) (e : route_of by_id k ≡ some v) where
  IsReached-assign :
      (routes : List (Text × Text)) (c : Text)
      → IsReached by_id routes c
      → IsReached by_id (assign k v routes) c
  IsReached-assign routes c (m, f, r) = elim (Bool-cases (text_eq k m)) [
    | inl p ↦ (
      m,
      find-assign k m v routes
          ∙ ap (λ b. if b then some v else find m routes) p
          ∙ sym e
          ∙ ap (route_of by_id) (text_eq_sound k m p)
          ∙ r,
      r,
    )
    | inr p ↦ (m, find-assign k m v routes ∙ ap (λ b. if b then some v else find m routes) p ∙ f, r)
  ]

  AreReached-assign :
      (routes : List (Text × Text)) (cs : List Text)
      → AreReached by_id routes cs
      → AreReached by_id (assign k v routes) cs
  AreReached-assign routes [] h = tt
  AreReached-assign routes (c ∷ cs) (h, hs) =
      (IsReached-assign routes c h, AreReached-assign routes cs hs)

add_route-AreReached :
    (by_id : Catalogue) (id : Text) (o : Option Text) (st : Routes)
    → route_of by_id id ≡ o
    → AreReached by_id (st.0) (st.1)
    → AreReached by_id ((add_route id o st).0) ((add_route id o st).1)
add_route-AreReached by_id id none st e h = h
add_route-AreReached by_id id (some c) (routes, collapsed) e h = (
  (
    id,
    find-assign id id c routes ∙ ap (λ b. if b then some c else find id routes) (text_eq_refl id),
    e,
  ),
  AreReached-assign by_id id c e routes collapsed h,
)

pair_each-AreReached :
    (by_id items : Catalogue) (st : Routes)
    → AreReached by_id (st.0) (st.1)
    → AreReached by_id ((pair_each by_id items st).0) ((pair_each by_id items st).1)
unfolding pair_each
pair_each-AreReached by_id [] st h = h
pair_each-AreReached by_id ((id, item) ∷ items) st h =
    pair_each-AreReached by_id items (add_route id (route_of by_id id) st)
      (add_route-AreReached by_id id (route_of by_id id) st refl h)

pub pair_variants-AreReached :
    (by_id : Catalogue) (b : Bool)
    → AreReached by_id ((pair_variants by_id b).0) ((pair_variants by_id b).1)
unfolding pair_variants
pair_variants-AreReached by_id b =
    on_test (λ (st : Routes). AreReached by_id (st.0) (st.1)) b
      (λ _. pair_each-AreReached by_id by_id ([], []) tt) (λ _. tt)
