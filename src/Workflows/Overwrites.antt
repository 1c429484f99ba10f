-- ===== src/Workflows/Overwrites.antt =====
-- The inputs of the graph after a write to one of them, and after several.
use openai_api_bridge.Prelude.{
  ◌≡◌, refl, sym, ap, ◌∙◌, ◌&&◌, inl, inr, Bool, false, Option, none, some, List, [], ◌∷◌,
  if◌then◌else◌, Text, codes, text_eq, text_eq_sound, Bool-cases,
}
use openai_api_bridge.Json.{
  Json, null, boolean, integer, float, text, array, object, Object, get, set,
}
use openai_api_bridge.Json.Members.{get-set}
use openai_api_bridge.Workflows.{as_key, inputs_in, inputs_of, with_input, write_input}
use openai_api_bridge.Workflows.Writes.{Holds, Holds-bind, IsStray}
use openai_api_bridge.Workflows.Frame.{Kept, kept, Kept-inputs}
use openai_api_bridge.Workflows.Ratio.{input_of, input_at, input_in, get-set_same}

-- a node, the field of it, and the value that is written there
abbrev pub Write : Type 0
Write = Text × Json × Json

abbrev is_key : Text → Json → Bool
is_key key (text t) = text_eq t key
is_key key _ = false

-- an input of a node after a write: the value where the write is to it, else what it was
abbrev pub overwritten : Text → Text → Option Write → Option Json → Option Json
overwritten id key none old = old
overwritten id key (some (i, f, v)) old = if text_eq i id && is_key key f then some v else old

-- after several writes, the last one to it counts
abbrev pub latest : Text → Text → List (Option Write) → Option Json → Option Json
latest id key [] old = old
latest id key (o ∷ ws) old = latest id key ws (overwritten id key o old)

inputs_in-exact :
    (n : Object) (o : Option Json)
    → get (codes "inputs") n ≡ o
    → Holds IsStray
        (λ p.
          (some (object n) ≡ some (object p.0))
          × (get (codes "inputs") (p.0) ≡ some (object (p.1))))
        (inputs_in false o n)
inputs_in-exact n none e = tt
inputs_in-exact n (some null) e = tt
inputs_in-exact n (some (boolean b)) e = tt
inputs_in-exact n (some (integer b k)) e = tt
inputs_in-exact n (some (float b t)) e = tt
inputs_in-exact n (some (text t)) e = tt
inputs_in-exact n (some (array xs)) e = tt
inputs_in-exact n (some (object i)) e = (refl, e)

inputs_of-exact :
    (o : Option Json)
    → Holds IsStray
        (λ p. (o ≡ some (object (p.0))) × (get (codes "inputs") (p.0) ≡ some (object (p.1))))
        (inputs_of false o)
inputs_of-exact none = tt
inputs_of-exact (some null) = tt
inputs_of-exact (some (boolean b)) = tt
inputs_of-exact (some (integer b k)) = tt
inputs_of-exact (some (float b t)) = tt
inputs_of-exact (some (text t)) = tt
inputs_of-exact (some (array xs)) = tt
inputs_of-exact (some (object n)) = inputs_in-exact n (get (codes "inputs") n) refl

as_key-exact :
    (j : Json) → Holds IsStray (λ k. (key : Text) → is_key key j ≡ text_eq k key) (as_key j)
as_key-exact null = tt
as_key-exact (boolean b) = tt
as_key-exact (integer b n) = tt
as_key-exact (float b t) = tt
as_key-exact (text t) = λ key. refl
as_key-exact (array xs) = tt
as_key-exact (object o) = tt

module _ (id key : Text) where
  input_of-write :
      (i k : Text) (n inputs : Object) (v : Json) (w : Object)
      → get i w ≡ some (object n)
      → get (codes "inputs") n ≡ some (object inputs)
      → input_of id key (with_input i n inputs k v w)
        ≡ (if text_eq i id && text_eq k key then some v else input_of id key w)
  input_of-write i k n inputs v w e f =
      let new : Json = object (set (codes "inputs") (object (set k v inputs)) n) in
      elim (Bool-cases (text_eq i id)) [
        | inl p ↦
            let held : get key inputs ≡ input_of id key w = sym (
              ap (λ t. input_at key (get t w)) (sym (text_eq_sound i id p))
              ∙ ap (input_at key) e
              ∙ ap (input_in key) f) in
            ap (input_at key) (get-set i id new w ∙ ap (λ b. if b then some new else get id w) p)
            ∙ ap (input_in key) (get-set_same (codes "inputs") (object (set k v inputs)) n)
            ∙ get-set k key v inputs
            ∙ ap (λ old. if text_eq k key then some v else old) held
            ∙ ap (λ b. if b && text_eq k key then some v else input_of id key w) (sym p)
        | inr p ↦
            ap (input_at key) (get-set i id new w ∙ ap (λ b. if b then some new else get id w) p)
            ∙ ap (λ b. if b && text_eq k key then some v else input_of id key w) (sym p)
      ]

  -- a graph after a write, or none
  abbrev pub IsWritten : Object → Option Write → Object → Type 0
  IsWritten w o w' = Kept w w' × (input_of id key w' ≡ overwritten id key o (input_of id key w))

  pub write_input-IsWritten :
      (i : Text) (f v : Json) (w : Object)
      → Holds IsStray (IsWritten w (some (i, f, v))) (write_input false i f v w)
  unfolding write_input
  write_input-IsWritten i f v w =
      Holds-bind IsStray _ (IsWritten w (some (i, f, v))) (inputs_of false (get i w)) _
        (inputs_of-exact (get i w))
        λ (n, inputs) (e, g).
          Holds-bind IsStray _ (IsWritten w (some (i, f, v))) (as_key f) _ (as_key-exact f) λ k h. (
            Kept-inputs w w i n (set k v inputs) e (kept λ j. inl refl),
            input_of-write i k n inputs v w e g
                ∙ ap (λ b. if text_eq i id && b then some v else input_of id key w) (sym (h key)),
          )
