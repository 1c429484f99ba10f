-- ===== src/JsonBody/Tests.antt =====
-- A body whose model is replaced, and the theorem at it.
use openai_api_bridge.Prelude.{
  ◌≡◌, refl, inl, inr, false, List, [], ◌∷◌, Text, codes, text_eq, arith,
}
use openai_api_bridge.Json.{Json, text, integer, Object, empty, member, set}
use openai_api_bridge.JsonBody.{
  Edit, slice, splice, shifted, replacement, JsonBody, replace_top_level,
}
use openai_api_bridge.JsonBody.Splice.{replaced_by, shifted-splice}

abbrev source : Text
source = codes "{\"model\": \"a\", \"n\": 1}"

abbrev edits : List Edit
edits = record { start = 10; stop = 13; encoded = codes "\"longer\"" } ∷ []

abbrev body : JsonBody
body = record {
  fields = member (codes "model") (text (codes "a")) (member (codes "n") (integer false 1) empty);
  text = source;
  spans = (codes "model", (10, 13) ∷ []) ∷ (codes "n", (20, 21) ∷ []) ∷ [];
}

abbrev dumps : Json → Text
dumps j = codes "\"longer\""

abbrev dumps_object : Object → Text
dumps_object o = codes "{}"

model_replaced :
    replace_top_level dumps dumps_object body (member (codes "model") (text (codes "longer")) empty)
    ≡ record {
      fields =
          member
            (codes "model")
            (text (codes "longer"))
            (member (codes "n") (integer false 1) empty);
      text = codes "{\"model\": \"longer\", \"n\": 1}";
      spans = (codes "model", (10, 18) ∷ []) ∷ (codes "n", (25, 26) ∷ []) ∷ [];
    }
unfolding replace_top_level text_eq set
model_replaced = refl

shifted-splice_example :
    slice ((shifted edits (20, 21)).0) ((shifted edits (20, 21)).1) (splice 0 source edits)
    ≡ replaced_by (replacement edits 20) (codes "1")
shifted-splice_example =
    shifted-splice source edits 20 21 (omega arith) (omega arith)
      (omega arith, omega arith, omega arith, omega arith) (inr (inl (omega arith)), tt)
