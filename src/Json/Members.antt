-- ===== src/Json/Members.antt =====
-- Reading an object after an assignment.
use openai_api_bridge.Prelude.{
  ◌≡◌, refl, ap, inl, inr, false, some, if◌then◌else◌, Text, text_eq, text_eq_sound, text_eq_sym,
  sym, ◌∙◌, Bool-cases, arith,
}
use openai_api_bridge.Json.{Json, Object, empty, member, get, set}

text_eq_ne : (k i j : Text) → i ≡ j → text_eq i k ≡ false → text_eq k j ≡ false
text_eq_ne k i j e p = text_eq_sym k j ∙ ap (λ t. text_eq t k) (sym e) ∙ p

pub get-set :
    (k j : Text) (v : Json) (o : Object)
    → get j (set k v o) ≡ (if text_eq k j then some v else get j o)
unfolding get set
get-set k j v empty = refl
get-set k j v (member i w o) =
    let ih = get-set k j v o in
    elim (Bool-cases (text_eq i k)) [
      | inl p ↦ let e = ap (λ t. text_eq t j) (text_eq_sound i k p) in ground (arith, p, e, ih)
      | inr p ↦ elim (Bool-cases (text_eq i j)) [
        | inl q ↦ let e = text_eq_sound i j q in ground (arith, p, q, text_eq_ne k i j e p, ih)
        | inr q ↦ ground (arith, p, q, ih)
      ]
    ]
