-- ===== src/Workflows/Ratio.antt =====
-- The ratio that the submitted graph holds is the one that is reported.
use mathlib.Core.Path.{subst}
use openai_api_bridge.Prelude.{
  ℕ, zero, suc, ◌≡◌, refl, sym, ap, ◌∙◌, inl, inr, Bool, true, false, Option, none, some, List, [],
  ◌∷◌, if◌then◌else◌, Text, codes, text_eq, text_eq_refl, on_test,
}
use openai_api_bridge.Json.{
  Json, null, boolean, integer, float, text, array, object, Object, get, set, has, truthy,
}
use openai_api_bridge.Json.Members.{get-set}
use openai_api_bridge.Aspect.{
  AspectRatio, parse_aspect_ratio, snap_to, snap_parsed, snap_aspect_ratio,
}
use openai_api_bridge.Workflows.{
  Prepared, prepared, ◌>>=◌, as_key, field, or_default, inputs_of, with_input, write_input,
  find_node, given_node,
}
use openai_api_bridge.Workflows.Seeds.{
  Request, choose, requested_ratio, inject_ratio, inject_shape, inject_length, str, write_ratio,
  write_positive,
}
use openai_api_bridge.Workflows.Writes.{
  Holds, Holds-bind, Holds-any, after, AnyError, IsStray, write_input-Holds,
}
use openai_api_bridge.Workflows.Frame.{IsKept, Kept, kept}

abbrev pub input_in : Text → Option Json → Option Json
input_in key (some (object inputs)) = get key inputs
input_in key _ = none

abbrev pub input_at : Text → Option Json → Option Json
input_at key (some (object n)) = input_in key (get (codes "inputs") n)
input_at key _ = none

-- what the node holds as one of its inputs
abbrev pub input_of : Text → Text → Object → Option Json
input_of id key w = input_at key (get id w)

-- the value names another node, or none
abbrev pub IsElsewhere : Text → Json → Type 0
IsElsewhere id (text t) = text_eq t id ≡ false
IsElsewhere id _ = Unit {0}

pub get-set_same : (k : Text) (v : Json) (o : Object) → get k (set k v o) ≡ some v
get-set_same k v o = get-set k k v o ∙ ap (λ b. if b then some v else get k o) (text_eq_refl k)

input_of-with_input :
    (id : Text) (n i : Object) (key : Text) (v : Json) (w : Object)
    → input_of id key (with_input id n i key v w) ≡ some v
input_of-with_input id n i key v w =
    ap (input_at key) (get-set_same id (object (set (codes "inputs") (object (set key v i)) n)) w)
    ∙ ap (input_in key) (get-set_same (codes "inputs") (object (set key v i)) n)
    ∙ get-set_same key v i

write_input-reads :
    (d : Bool) (id : Text) (f v : Json) (w : Object) (key : Text)
    → as_key f ≡ prepared key
    → Holds AnyError (λ w'. input_of id key w' ≡ some v) (write_input d id f v w)
unfolding write_input
write_input-reads d id f v w key e = after _ (inputs_of d (get id w)) _ λ (n, i).
    subst
      (λ m.
        Holds AnyError (λ w'. input_of id key w' ≡ some v)
          (m >>= λ k. prepared (with_input id n i k v w)))
      (sym e) (input_of-with_input id n i key v w)

write_ratio-reads :
    (meta w : Object) (o : AspectRatio) (id key : Text) (n : Object) (v : Option Json)
    → as_key (field (codes "aspect_ratio_field") (codes "aspect_ratio") meta) ≡ prepared key
    → IsKept (some (object n)) v
    → Holds AnyError
        (λ w'. input_of id key w' ≡ some (text o.literal))
        (write_ratio meta (some o) w id v)
write_ratio-reads meta w o id key n v e (inl p) =
    subst
      (λ v.
        Holds AnyError (λ w'. input_of id key w' ≡ some (text o.literal))
          (write_ratio meta (some o) w id v))
      p (write_input-reads true id _ (text o.literal) w key e)
write_ratio-reads meta w o id key n v e (inr (m, m', p, q, s)) =
    subst
      (λ v.
        Holds AnyError (λ w'. input_of id key w' ≡ some (text o.literal))
          (write_ratio meta (some o) w id v))
      (sym q) (write_input-reads true id _ (text o.literal) w key e)

-- the length is written to another node
abbrev Avoids : Text → Option Text → Type 0
Avoids id none = Unit {0}
Avoids id (some t) = text_eq t id ≡ false

found-Avoids :
    (id t : Text) (b : Bool) → text_eq t id ≡ false → Avoids id (if b then some t else none)
found-Avoids id t true h = h
found-Avoids id t false h = tt

find_node-Avoids :
    (id : Text) (j : Json) (w : Object)
    → IsElsewhere id j
    → Holds AnyError (Avoids id) (find_node j w)
find_node-Avoids id (text t) w h = found-Avoids id t (has t w) h
find_node-Avoids id null w h = tt
find_node-Avoids id (boolean b) w h = tt
find_node-Avoids id (integer b n) w h = tt
find_node-Avoids id (float b t) w h = tt
find_node-Avoids id (array xs) w h = tt
find_node-Avoids id (object o) w h = tt

abbrev pub SameNode : Text → Object → Prepared Object → Type 0
SameNode id w m = Holds AnyError (λ w'. get id w' ≡ get id w) m

write_positive-SameNode :
    (id : Text) (f : Json) (n : Option ℕ) (found : Option Text) (w : Object)
    → Avoids id found
    → SameNode id w (write_positive f n found w)
write_positive-SameNode id f none found w h = refl
write_positive-SameNode id f (some zero) found w h = refl
write_positive-SameNode id f (some (suc n)) none w h = refl
write_positive-SameNode id f (some (suc n)) (some t) w h =
    Holds-any IsStray _ (write_input false t f _ w) (
      write_input-Holds (λ w'. get id w' ≡ get id w) false t f _ w
        λ m i e.
          get-set t id (object (set (codes "inputs") (object i) m)) w
          ∙ ap (λ b. if b then some (object (set (codes "inputs") (object i) m)) else get id w) h)

pub inject_length-SameNode :
    (id : Text) (meta : Object) (length : Option ℕ) (w : Object)
    → IsElsewhere id (or_default null (get (codes "length_node") meta))
    → SameNode id w (inject_length meta length w)
unfolding inject_length
inject_length-SameNode id meta length w h =
    Holds-bind AnyError (Avoids id) _ (given_node node w) _
      (on_test (Holds AnyError (Avoids id)) (truthy node) (λ _. find_node-Avoids id node w h)
        (λ _. tt))
      (λ found k. write_positive-SameNode id _ length found w k)
  where
    node : Json
    node = or_default null (get (codes "length_node") meta)

snap_nothing :
    (distance : AspectRatio → AspectRatio → ℕ) (want : Option AspectRatio)
    → snap_parsed distance want [] ≡ none
unfolding snap_to
snap_nothing distance none = refl
snap_nothing distance (some want) = refl

module _ (dumps : List Text → Text) (randint : ℕ → ℕ → ℕ → ℕ)
    (distance : AspectRatio → AspectRatio → ℕ) (meta : Object) (r : Request) (id key : Text)
    (o : AspectRatio) (node : get (codes "aspect_ratio_node") meta ≡ some (text id))
    (input : as_key (field (codes "aspect_ratio_field") (codes "aspect_ratio") meta)
      ≡ prepared key) where
  inject_ratio-reads :
      (graph w n : Object)
      → get id graph ≡ some (object n)
      → Kept graph w
      → Holds AnyError
          (λ w'. input_of id key w' ≡ some (text o.literal))
          (inject_ratio meta (some o) w)
  unfolding inject_ratio
  inject_ratio-reads graph w n e (kept h) =
      subst
        (λ j.
          Holds AnyError (λ w'. input_of id key w' ≡ some (text o.literal))
            (str j >>= λ i. write_ratio meta (some o) w i (get i w)))
        (sym node)
        (write_ratio-reads meta w o id key n (get id w) input
          (subst (λ v. IsKept v (get id w)) e (h id)))

  pub inject_shape-reads :
      (ratios : List AspectRatio) (graph w n : Object)
      → choose distance ratios r ≡ some o
      → get id graph ≡ some (object n)
      → Kept graph w
      → Holds AnyError
          (λ w'. input_of id key w' ≡ some (text o.literal))
          (inject_shape dumps randint distance meta r ratios w)
  unfolding snap_aspect_ratio
  inject_shape-reads [] graph w n c e h = absurd (
      impossible
        (sym (snap_nothing distance (parse_aspect_ratio (requested_ratio r.aspect_ratio))) ∙ c))
    where
      impossible : none ≡ some o → ⊥
      impossible q = cc
  inject_shape-reads (p ∷ ps) graph w n c e h =
      subst
        (λ c.
          Holds AnyError (λ w'. input_of id key w' ≡ some (text o.literal)) (inject_ratio meta c w))
        (sym c) (inject_ratio-reads graph w n e h)
