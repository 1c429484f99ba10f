-- ===== src/Models/Lookup.antt =====
-- Reading a dict after an assignment.
use openai_api_bridge.Prelude.{
  ◌≡◌, refl, ap, sym, ◌∙◌, inl, inr, false, some, List, [], ◌∷◌, if◌then◌else◌, Text, text_eq,
  text_eq_sound, text_eq_sym, Bool-cases, arith,
}
use openai_api_bridge.Models.{assign, find}

pub find-assign :
    {V : Type 0} (k j : Text) (v : V) (d : List (Text × V))
    → find j (assign k v d) ≡ (if text_eq k j then some v else find j d)
unfolding find assign
find-assign k j v [] = refl
find-assign k j v ((i, w) ∷ d) =
    let ih = find-assign k j v d in
    elim (Bool-cases (text_eq i k)) [
      | inl p ↦ ground (arith, p, ih, ap (λ t. text_eq t j) (text_eq_sound i k p))
      | inr p ↦ elim (Bool-cases (text_eq i j)) [
        | inl q ↦
            let ne : text_eq k j ≡ false =
              text_eq_sym k j ∙ ap (λ t. text_eq t k) (sym (text_eq_sound i j q)) ∙ p in
            ground (arith, p, q, ne, ih)
        | inr q ↦ ground (arith, p, q, ih)
      ]
    ]
