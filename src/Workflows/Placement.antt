-- ===== src/Workflows/Placement.antt =====
-- What the entries of `image_inputs` write, and what the inputs of the graph are after them.
use mathlib.Core.Path.{subst}
use openai_api_bridge.Prelude.{
  ◌≡◌, refl, sym, ap, ◌∙◌, inl, Bool, true, false, Option, none, some, List, [], ◌∷◌, if◌then◌else◌,
  Text, codes,
}
use openai_api_bridge.Json.{
  Json, null, boolean, integer, float, text, array, object, Items, nil, cons, Object, get,
}
use openai_api_bridge.Workflows.{
  Prepared, prepared, or_default, write_input, usable, multiple, place, place_one, place_all,
  place_each, place_spec, all_images,
}
use openai_api_bridge.Workflows.Writes.{Holds, Holds-bind, Holds-map, Holds-self, IsStray}
use openai_api_bridge.Workflows.Frame.{Kept, kept}
use openai_api_bridge.Workflows.Ratio.{input_of}
use openai_api_bridge.Workflows.Overwrites.{Write, latest, IsWritten, write_input-IsWritten}
use openai_api_bridge.Workflows.Capacity.{usable-Kept, usable-IsStray}

-- the files that an entry leaves
abbrev left : Bool → Prepared (Option Text) → List Text → List Text
left true (prepared (some id)) files = []
left false (prepared (some id)) (file ∷ files) = files
left many found files = files

abbrev pub field_of : Object → Json
field_of spec = or_default null (get (codes "field") spec)

module _ (dumps : List Text → Text) where
  -- what an entry writes: all the files that are left, or the first of them
  abbrev written : Object → Bool → Prepared (Option Text) → List Text → Option Write
  written spec true (prepared (some id)) files =
      some (id, field_of spec, all_images dumps spec files)
  written spec false (prepared (some id)) (file ∷ files) = some (id, field_of spec, text file)
  written spec many found files = none

  -- what each entry writes, by the nodes of the given graph
  unfoldable pub assigned : Object → Items → List Text → List (Option Write)
  assigned w nil files = []
  assigned w (cons (object spec) specs) files =
      written spec (multiple spec) (usable spec w) files
      ∷ assigned w specs (left (multiple spec) (usable spec w) files)
  assigned w (cons _ specs) files = assigned w specs files

  assigned-Kept :
      (specs : Items) (files : List Text) (w w' : Object)
      → Kept w w'
      → assigned w' specs files ≡ assigned w specs files
  unfolding assigned
  assigned-Kept nil files w w' h = refl
  assigned-Kept (cons (object spec) specs) files w w' h =
      ap
        (λ u.
          written spec (multiple spec) u files ∷ assigned w' specs (left (multiple spec) u files))
        (usable-Kept spec w w' h)
      ∙ ap (◌∷◌ (written spec (multiple spec) (usable spec w) files))
          (assigned-Kept specs (left (multiple spec) (usable spec w) files) w w' h)
  assigned-Kept (cons null specs) files w w' h = assigned-Kept specs files w w' h
  assigned-Kept (cons (boolean b) specs) files w w' h = assigned-Kept specs files w w' h
  assigned-Kept (cons (integer b n) specs) files w w' h = assigned-Kept specs files w w' h
  assigned-Kept (cons (float b t) specs) files w w' h = assigned-Kept specs files w w' h
  assigned-Kept (cons (text t) specs) files w w' h = assigned-Kept specs files w w' h
  assigned-Kept (cons (array xs) specs) files w w' h = assigned-Kept specs files w w' h

  module _ (id key : Text) where
    abbrev IsPlaced :
        Object → Object → List Text → Bool → Prepared (Option Text) → Object × List Text → Type 0
    IsPlaced spec w files many found (w', rest) =
        IsWritten id key w (written spec many found files) w' × (rest ≡ left many found files)

    place-IsPlaced :
        (spec w : Object) (files : List Text) (found : Option Text)
        → Holds IsStray
            (IsPlaced spec w files (multiple spec) (prepared found))
            (place dumps spec (w, files) found)
    place-IsPlaced spec w files none = nothing (multiple spec)
      where
        nothing : (many : Bool) → IsPlaced spec w files many (prepared none) (w, files)
        nothing true = ((kept (λ j. inl refl), refl), refl)
        nothing false = ((kept (λ j. inl refl), refl), refl)
    place-IsPlaced spec w files (some i) = either (multiple spec) files
      where
        either :
            (many : Bool) (fs : List Text)
            → Holds IsStray (IsPlaced spec w fs many (prepared (some i))) (
                if many
                then place_all dumps i spec (field_of spec) w fs
                else place_one dumps i (field_of spec) w fs)
        either true fs =
            Holds-bind IsStray _ (IsPlaced spec w fs true (prepared (some i)))
              (write_input false i (field_of spec) (all_images dumps spec fs) w) _
              (write_input-IsWritten id key i (field_of spec) (all_images dumps spec fs) w)
              (λ w' h. (h, refl))
        either false [] = ((kept (λ j. inl refl), refl), refl)
        either false (file ∷ fs) =
            Holds-bind IsStray _ (IsPlaced spec w (file ∷ fs) false (prepared (some i)))
              (write_input false i (field_of spec) (text file) w) _
              (write_input-IsWritten id key i (field_of spec) (text file) w) (λ w' h. (h, refl))

    -- every input of the graph is what the last write to it makes it
    pub place_each-latest :
        (specs : Items) (w : Object) (files : List Text)
        → Holds IsStray
            (λ st.
              input_of id key (st.0) ≡ latest id key (assigned w specs files) (input_of id key w))
            (place_each dumps specs (w, files))
    unfolding place_each assigned
    place_each-latest nil w files = refl
    place_each-latest (cons (object spec) specs) w files =
        Holds-bind IsStray (IsPlaced spec w files (multiple spec) (usable spec w)) _
          (place_spec dumps (object spec) (w, files)) _
          (Holds-bind IsStray (λ found. usable spec w ≡ prepared found) _ (usable spec w) _
            (Holds-self IsStray (λ _. Unit {0}) (usable spec w) (usable-IsStray spec w))
            (λ found e.
              subst
                (λ u.
                  Holds IsStray (IsPlaced spec w files (multiple spec) u)
                    (place dumps spec (w, files) found))
                (sym e) (place-IsPlaced spec w files found)))
          (λ (w', rest) ((h, e), q).
            Holds-map IsStray _ _ (place_each dumps specs (w', rest))
              (λ st r.
                r
                ∙ ap (λ ws. latest id key ws (input_of id key w'))
                    (assigned-Kept specs rest w w' h ∙ ap (assigned w specs) q)
                ∙ ap (latest id key (assigned w specs (left (multiple spec) (usable spec w) files)))
                    e)
              (place_each-latest specs w' rest))
    place_each-latest (cons null specs) w files = tt
    place_each-latest (cons (boolean b) specs) w files = tt
    place_each-latest (cons (integer b n) specs) w files = tt
    place_each-latest (cons (float b t) specs) w files = tt
    place_each-latest (cons (text t) specs) w files = tt
    place_each-latest (cons (array xs) specs) w files = tt
