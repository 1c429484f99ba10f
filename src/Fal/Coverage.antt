-- ===== src/Fal/Coverage.antt =====
-- Every model of the catalogue can be had.
use mathlib.Core.Path.{subst}
use openai_api_bridge.Prelude.{
  ◌≡◌, refl, sym, ap, ◌∙◌, ◌⊎◌, inl, inr, ◌||◌, Bool, true, false, Option, none, some, List, [],
  ◌∷◌, if◌then◌else◌, Text, codes, text_eq, text_eq_sound, Bool-cases, on_test, arith,
}
use openai_api_bridge.Json.{Object}
use openai_api_bridge.Models.{find, is_in, ModelEntry}
use openai_api_bridge.Models.Lookup.{find-assign}
use openai_api_bridge.Fal.{
  Catalogue, category_of, metadata_text, route_of, pair_variants, endpoint_id, assign_item,
  catalogue, FalModelConfig, entry, is_passed, list_entries, catalogue_entries,
}
use openai_api_bridge.Fal.Pairs.{
  IsPair, images, videos, Every, route_of-IsPair, halves_differ, IsReached, AreReached,
  pair_variants-AreReached,
}

abbrev is_this : Text → Option Text → Bool
is_this id none = false
is_this id (some t) = text_eq t id

-- some item of the catalogue has the id
unfoldable pub has_item : Text → List Object → Bool
has_item id [] = false
has_item id (item ∷ raw) = is_this id (endpoint_id item) || has_item id raw

unfoldable pub is_listed : Text → List ModelEntry → Bool
is_listed id [] = false
is_listed id (e ∷ es) = text_eq e.id id || is_listed id es

or_right : (a b c : Bool) → a ≡ false → (b || (a || c)) ≡ (b || c)
or_right a b c h = ground (arith, h)

module _ (by_id : Catalogue) (models : List (Text × FalModelConfig)) (routes : List (Text × Text))
    (collapsed : List Text) (id : Text) (kept : is_in id collapsed ≡ false) where
  abbrev rows : List Text → List Object → List ModelEntry
  rows seen raw = list_entries by_id models routes collapsed seen raw

  -- the id is listed, or was before
  abbrev IsSettled : List Text → List ModelEntry → Type 0
  IsSettled seen es = (is_in id seen || is_listed id es) ≡ true

  passed-IsSettled :
      (t : Text) (seen : List Text) (es : List ModelEntry)
      → is_passed by_id models routes t seen collapsed ≡ true
      → (text_eq t id ≡ true) ⊎ IsSettled seen es
      → IsSettled seen es
  passed-IsSettled t seen es p (inl q) =
      let e = text_eq_sound t id q in
      let r : (is_in id seen || is_in id collapsed) ≡ true =
        ap (λ u. is_in u seen || is_in u collapsed) (sym e) ∙ p in
      ground (arith, kept, r)
  passed-IsSettled t seen es p (inr h) = h

  listed-IsSettled :
      (t : Text) (seen : List Text) (item : Object) (es : List ModelEntry)
      → (text_eq t id ≡ true) ⊎ IsSettled (t ∷ seen) es
      → IsSettled seen (entry by_id models routes t item ∷ es)
  unfolding is_listed entry
  listed-IsSettled t seen item es (inl q) = ground (arith, q)
  listed-IsSettled t seen item es (inr h) = elim (Bool-cases (text_eq t id)) [
    | inl q ↦ ground (arith, q)
    | inr q ↦ ground (arith, q, h)
  ]

  this_or_later :
      (t : Text) (b : Bool) (P : Type 0)
      → (text_eq t id || b) ≡ true
      → (b ≡ true → P)
      → (text_eq t id ≡ true) ⊎ P
  this_or_later t b P h f = elim (Bool-cases (text_eq t id)) [
    | inl q ↦ inl q
    | inr q ↦ inr (f (ground (arith, q, h)))
  ]

  rows-IsSettled :
      (seen : List Text) (raw : List Object)
      → has_item id raw ≡ true
      → IsSettled seen (rows seen raw)
  unfolding has_item list_entries
  rows-IsSettled seen [] h = absurd (cc)
  rows-IsSettled seen (item ∷ raw) h = by_item (endpoint_id item) h (λ s. rows-IsSettled s raw)
    where
      by_item :
          (o : Option Text)
          → (is_this id o || has_item id raw) ≡ true
          → ((s : List Text) → has_item id raw ≡ true → IsSettled s (rows s raw))
          → IsSettled seen (elim o [
            | none ↦ rows seen raw
            | some t ↦
                if is_passed by_id models routes t seen collapsed
                then rows seen raw
                else entry by_id models routes t item ∷ rows (t ∷ seen) raw
          ])
      by_item none h ih = ih seen h
      by_item (some t) h ih =
          on_test (IsSettled seen) (is_passed by_id models routes t seen collapsed)
            (λ p.
              passed-IsSettled t seen (rows seen raw) p
                (this_or_later t (has_item id raw) _ h (ih seen)))
            (λ _.
              listed-IsSettled t seen item (rows (t ∷ seen) raw)
                (this_or_later t (has_item id raw) _ h (ih (t ∷ seen))))

  pub rows-listed : (raw : List Object) → has_item id raw ≡ true → is_listed id (rows [] raw) ≡ true
  rows-listed raw h = rows-IsSettled [] raw h

-- what the catalogue has under an id stood in some item, or was there before
module _ (id : Text) where
  assign_item-find :
      (o : Option Text) (item : Object) (raw : List Object) (by_id : Catalogue)
      → (find id (assign_item o item by_id) ≡ find id by_id)
        ⊎ ((is_this id o || has_item id raw) ≡ true)
  assign_item-find none item raw by_id = inl refl
  assign_item-find (some t) item raw by_id = elim (Bool-cases (text_eq t id)) [
    | inl p ↦ inr (ground (arith, p))
    | inr p ↦ inl (find-assign t id item by_id ∙ ap (λ b. if b then some item else find id by_id) p)
  ]

  catalogue-find :
      (raw : List Object) (by_id : Catalogue)
      → (find id (catalogue raw by_id) ≡ find id by_id) ⊎ (has_item id raw ≡ true)
  unfolding catalogue has_item
  catalogue-find [] by_id = inl refl
  catalogue-find (item ∷ raw) by_id =
      elim (catalogue-find raw (assign_item (endpoint_id item) item by_id)) [
        | inr h ↦ inr (ground (arith, h))
        | inl e ↦ elim (assign_item-find (endpoint_id item) item raw by_id) [
          | inl f ↦ inl (e ∙ f)
          | inr h ↦ inr h
        ]
      ]

  category-has :
      (raw : List Object) (c : Text)
      → category_of (catalogue raw []) id ≡ some c
      → has_item id raw ≡ true
  unfolding category_of find
  category-has raw c h = elim (catalogue-find raw []) [
    | inr p ↦ p
    | inl e ↦ absurd (impossible (sym (ap (λ o. metadata_text (codes "category") o) e) ∙ h))
  ]
    where
      impossible : none ≡ some c → ⊥
      impossible q = cc

IsPair-has :
    (raw : List Object) (a b : Text) → IsPair (catalogue raw []) a b → has_item a raw ≡ true
IsPair-has raw a b (images p q) = category-has a raw (codes "text-to-image") p
IsPair-has raw a b (videos p q) = category-has a raw (codes "text-to-video") p

reached :
    (by_id : Catalogue) (routes : List (Text × Text)) (collapsed : List Text) (id : Text)
    → AreReached by_id routes collapsed
    → is_in id collapsed ≡ true
    → IsReached by_id routes id
reached by_id routes [] id h p = absurd (cc)
reached by_id routes (c ∷ cs) id (h, hs) p = elim (Bool-cases (text_eq c id)) [
  | inl q ↦ subst (IsReached by_id routes) (text_eq_sound c id q) h
  | inr q ↦ reached by_id routes cs id hs (ground (arith, p, q))
]

IsReached-IsPair : (by_id : Catalogue) (m c : Text) → route_of by_id m ≡ some c → IsPair by_id m c
IsReached-IsPair by_id m c r = subst (Every (IsPair by_id m)) r (route_of-IsPair by_id m)

-- the id is listed, or a listed model is routed to it that is the other half of a pair
abbrev pub IsReachable : Catalogue → Text → List ModelEntry × List (Text × Text) → Type 0
IsReachable by_id id (entries, routes) =
    (is_listed id entries ≡ true)
    ⊎ ((m : Text) × (is_listed m entries ≡ true) × (find m routes ≡ some id) × IsPair by_id m id)

pub catalogue_entries-IsReachable :
    (raw : List Object) (models : List (Text × FalModelConfig)) (collapse_variants : Bool)
    (id : Text)
    → has_item id raw ≡ true
    → IsReachable (catalogue raw []) id (catalogue_entries raw models collapse_variants)
unfolding catalogue_entries
catalogue_entries-IsReachable raw models collapse_variants id h =
    elim (Bool-cases (is_in id collapsed)) [
      | inr kept ↦ inl (rows-listed by_id models routes collapsed id kept raw h)
      | inl gone ↦
          let (m, f, r) = reached by_id routes collapsed id all gone in
          let pair = IsReached-IsPair by_id m id r in
          inr (
            m,
            rows-listed by_id models routes collapsed m (kept m pair) raw
                (IsPair-has raw m id pair),
            f,
            pair,
          )
    ]
  where
    by_id : Catalogue
    by_id = catalogue raw []

    routes : List (Text × Text)
    routes = (pair_variants by_id collapse_variants).0

    collapsed : List Text
    collapsed = (pair_variants by_id collapse_variants).1

    all : AreReached by_id routes collapsed
    all = pair_variants-AreReached by_id collapse_variants

    kept : (m : Text) → IsPair by_id m id → is_in m collapsed ≡ false
    kept m pair = elim (Bool-cases (is_in m collapsed)) [
      | inr q ↦ q
      | inl q ↦
          let (n, f, r) = reached by_id routes collapsed m all q in
          absurd (halves_differ by_id n m id (IsReached-IsPair by_id n m r) pair)
    ]
