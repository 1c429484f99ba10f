-- ===== src/Workflows/Readiness.antt =====
-- Which entries of `image_inputs` can be written to a graph without an error of their own.
use mathlib.Core.Path.{subst}
use openai_api_bridge.Prelude.{
  ◌≡◌, refl, sym, ap, ◌∙◌, inl, inr, Bool, true, false, Option, none, some, List, [], ◌∷◌,
  if◌then◌else◌, Text, codes, text_eq, Bool-cases, arith,
}
use openai_api_bridge.Json.{
  Json, null, boolean, integer, float, text, array, object, Items, nil, cons, Object, get, set,
}
use openai_api_bridge.Json.Members.{get-set}
use openai_api_bridge.Workflows.{
  Failure, Prepared, prepared, refused, ◌>>=◌, as_key, inputs_in, inputs_of, with_input,
  write_input, usable, multiple, place, place_one, place_all, place_each, place_spec, all_images,
}
use openai_api_bridge.Workflows.Writes.{Holds, Holds-bind, Holds-map}
use openai_api_bridge.Workflows.Frame.{Kept, kept, Kept-inputs}
use openai_api_bridge.Workflows.Ratio.{get-set_same}
use openai_api_bridge.Workflows.Capacity.{usable-Kept}
use openai_api_bridge.Workflows.Placement.{field_of}

abbrev pub Never : Failure → Type 0
Never e = ⊥

-- a node that has a dict of inputs
abbrev is_dict : Option Json → Bool
is_dict (some (object i)) = true
is_dict _ = false

abbrev is_fed : Option Json → Bool
is_fed (some (object n)) = is_dict (get (codes "inputs") n)
is_fed _ = false

-- the node of an entry has a dict of inputs, and its field can be a key
abbrev IsReadyAt : Object → Json → Prepared (Option Text) → Type 0
IsReadyAt w f (prepared none) = Unit {0}
IsReadyAt w f (prepared (some id)) =
    (is_fed (get id w) ≡ true) × Holds Never (λ _. Unit {0}) (as_key f)
IsReadyAt w f (refused e) = ⊥

-- every entry is an object whose node is none of the graph's, or is one that has a dict of inputs
abbrev pub AreReady : Object → Items → Type 0
AreReady w nil = Unit {0}
AreReady w (cons (object spec) specs) =
    IsReadyAt w (field_of spec) (usable spec w) × AreReady w specs
AreReady w (cons _ specs) = ⊥

-- the later graph has a dict of inputs wherever the earlier one has
record IsLater (w w' : Object) : Type 0 where
  keeps : Kept w w'
  feeds : (i : Text) → is_fed (get i w) ≡ true → is_fed (get i w') ≡ true

IsLater-refl : (w : Object) → IsLater w w
IsLater-refl w = record { keeps = kept (λ j. inl refl); feeds = λ i h. h }

IsReadyAt-IsLater :
    (w w' : Object) (f : Json) (u : Prepared (Option Text))
    → IsLater w w'
    → IsReadyAt w f u
    → IsReadyAt w' f u
IsReadyAt-IsLater w w' f (prepared none) l h = tt
IsReadyAt-IsLater w w' f (prepared (some id)) l h = (l.feeds id h.0, h.1)
IsReadyAt-IsLater w w' f (refused e) l h = h

AreReady-IsLater :
    (specs : Items) (w w' : Object) → IsLater w w' → AreReady w specs → AreReady w' specs
AreReady-IsLater nil w w' l h = tt
AreReady-IsLater (cons (object spec) specs) w w' l (h, hs) = (
  subst (IsReadyAt w' (field_of spec)) (sym (usable-Kept spec w w' l.keeps))
      (IsReadyAt-IsLater w w' (field_of spec) (usable spec w) l h),
  AreReady-IsLater specs w w' l hs,
)
AreReady-IsLater (cons null specs) w w' l h = h
AreReady-IsLater (cons (boolean b) specs) w w' l h = h
AreReady-IsLater (cons (integer b n) specs) w w' l h = h
AreReady-IsLater (cons (float b t) specs) w w' l h = h
AreReady-IsLater (cons (text t) specs) w w' l h = h
AreReady-IsLater (cons (array xs) specs) w w' l h = h

inputs_in-is_dict :
    (n : Object) (o : Option Json)
    → is_dict o ≡ true
    → Holds Never (λ p. p.0 ≡ n) (inputs_in false o n)
inputs_in-is_dict n none h = ground (arith, h)
inputs_in-is_dict n (some null) h = ground (arith, h)
inputs_in-is_dict n (some (boolean b)) h = ground (arith, h)
inputs_in-is_dict n (some (integer b k)) h = ground (arith, h)
inputs_in-is_dict n (some (float b t)) h = ground (arith, h)
inputs_in-is_dict n (some (text t)) h = ground (arith, h)
inputs_in-is_dict n (some (array xs)) h = ground (arith, h)
inputs_in-is_dict n (some (object i)) h = refl

inputs_of-is_fed :
    (o : Option Json)
    → is_fed o ≡ true
    → Holds Never (λ p. o ≡ some (object p.0)) (inputs_of false o)
inputs_of-is_fed none h = ground (arith, h)
inputs_of-is_fed (some null) h = ground (arith, h)
inputs_of-is_fed (some (boolean b)) h = ground (arith, h)
inputs_of-is_fed (some (integer b k)) h = ground (arith, h)
inputs_of-is_fed (some (float b t)) h = ground (arith, h)
inputs_of-is_fed (some (text t)) h = ground (arith, h)
inputs_of-is_fed (some (array xs)) h = ground (arith, h)
inputs_of-is_fed (some (object n)) h =
    Holds-map Never (λ p. p.0 ≡ n) (λ p. some (object n) ≡ some (object p.0))
      (inputs_in false (get (codes "inputs") n) n) (λ p e. ap (λ m. some (object m)) (sym e))
      (inputs_in-is_dict n (get (codes "inputs") n) h)

with_input-IsLater :
    (id key : Text) (n inputs : Object) (v : Json) (w : Object)
    → get id w ≡ some (object n)
    → IsLater w (with_input id n inputs key v w)
with_input-IsLater id key n inputs v w e = record {
  keeps = Kept-inputs w w id n (set key v inputs) e (kept λ j. inl refl);
  feeds = λ i h. elim (Bool-cases (text_eq id i)) [
    | inl p ↦
        ap is_fed (get-set id i new w ∙ ap (λ b. if b then some new else get i w) p)
        ∙ ap is_dict (get-set_same (codes "inputs") (object (set key v inputs)) n)
    | inr p ↦ ap is_fed (get-set id i new w ∙ ap (λ b. if b then some new else get i w) p) ∙ h
  ];
}
  where
    new : Json
    new = object (set (codes "inputs") (object (set key v inputs)) n)

write_input-IsLater :
    (id : Text) (f v : Json) (w : Object)
    → IsReadyAt w f (prepared (some id))
    → Holds Never (IsLater w) (write_input false id f v w)
unfolding write_input
write_input-IsLater id f v w (h, k) =
    Holds-bind Never _ (IsLater w) (inputs_of false (get id w)) _ (inputs_of-is_fed (get id w) h)
      λ (n, inputs) e.
        Holds-bind Never (λ _. Unit {0}) (IsLater w) (as_key f) _ k
          λ key _. with_input-IsLater id key n inputs v w e

module _ (dumps : List Text → Text) where
  abbrev LaterFst : Object → Object × List Text → Type 0
  LaterFst w st = IsLater w (st.0)

  place-IsLater :
      (spec w : Object) (files : List Text) (found : Option Text)
      → IsReadyAt w (field_of spec) (prepared found)
      → Holds Never (LaterFst w) (place dumps spec (w, files) found)
  place-IsLater spec w files none h = IsLater-refl w
  place-IsLater spec w files (some id) h = either (multiple spec) files
    where
      either :
          (many : Bool) (fs : List Text)
          → Holds Never (LaterFst w) (
              if many
              then place_all dumps id spec (field_of spec) w fs
              else place_one dumps id (field_of spec) w fs)
      either true fs =
          Holds-bind Never (IsLater w) (LaterFst w)
            (write_input false id (field_of spec) (all_images dumps spec fs) w) _
            (write_input-IsLater id (field_of spec) (all_images dumps spec fs) w h) (λ w' l. l)
      either false [] = IsLater-refl w
      either false (file ∷ fs) =
          Holds-bind Never (IsLater w) (LaterFst w)
            (write_input false id (field_of spec) (text file) w) _
            (write_input-IsLater id (field_of spec) (text file) w h) (λ w' l. l)

  place_usable :
      (spec w : Object) (files : List Text) (u : Prepared (Option Text))
      → IsReadyAt w (field_of spec) u
      → Holds Never (LaterFst w) (u >>= place dumps spec (w, files))
  place_usable spec w files (prepared found) h = place-IsLater spec w files found h
  place_usable spec w files (refused e) h = h

  -- such entries are all placed
  pub place_each-AreReady :
      (specs : Items) (w : Object) (files : List Text)
      → AreReady w specs
      → Holds Never (λ _. Unit {0}) (place_each dumps specs (w, files))
  unfolding place_each
  place_each-AreReady nil w files h = tt
  place_each-AreReady (cons (object spec) specs) w files (h, hs) =
      Holds-bind Never (LaterFst w) (λ _. Unit {0}) (place_spec dumps (object spec) (w, files)) _
        (place_usable spec w files (usable spec w) h)
        (λ (w', rest) l. place_each-AreReady specs w' rest (AreReady-IsLater specs w w' l hs))
  place_each-AreReady (cons null specs) w files h = h
  place_each-AreReady (cons (boolean b) specs) w files h = h
  place_each-AreReady (cons (integer b n) specs) w files h = h
  place_each-AreReady (cons (float b t) specs) w files h = h
  place_each-AreReady (cons (text t) specs) w files h = h
  place_each-AreReady (cons (array xs) specs) w files h = h
