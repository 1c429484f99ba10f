-- ===== src/Workflows/Declared.antt =====
-- What a workflow that advertises ratios has been checked for.
use mathlib.Core.Path.{subst}
use openai_api_bridge.Prelude.{
  ◌≡◌, refl, sym, ap, ◌∙◌, ◌⊎◌, inl, inr, ◌||◌, Option, none, some, List, [], ◌∷◌, Text, codes,
  on_test,
}
use openai_api_bridge.Json.{Json, null, boolean, integer, float, text, array, object, Object, get}
use openai_api_bridge.Aspect.{AspectRatio, parse_aspect_ratio, parse_aspect_ratios}
use openai_api_bridge.Workflows.{Prepared, prepared, refused, as_key, field, or_default}
use openai_api_bridge.Workflows.Seeds.{str}
use openai_api_bridge.Workflows.Scan.{
  Ratios, default_ratio, with_field, as_object, in_inputs, in_node, checked, is_none,
  resolve_aspect_ratios,
}
use openai_api_bridge.Workflows.Writes.{
  Holds, Holds-bind, Holds-prepared, Holds-self, Holds-map, AnyError,
}
use openai_api_bridge.Workflows.Ratio.{input_in, input_at, input_of}

as_object-some : (j : Option Json) (o : Object) → as_object j ≡ some o → j ≡ some (object o)
as_object-some none o h = absurd (cc)
as_object-some (some (object p)) o h =
    ap (λ q. elim q [ none ↦ some (object p) | some r ↦ some (object r) ]) h
as_object-some (some null) o h = absurd (cc)
as_object-some (some (boolean b)) o h = absurd (cc)
as_object-some (some (integer b n)) o h = absurd (cc)
as_object-some (some (float b t)) o h = absurd (cc)
as_object-some (some (text t)) o h = absurd (cc)
as_object-some (some (array xs)) o h = absurd (cc)

-- nothing is advertised, or the options are, and the field is among the inputs that `reads` reads
abbrev Advertises : List AspectRatio → Json → (Text → Option Json) → Ratios → Type 0
Advertises options f reads (rs, d) =
    (rs ≡ [])
    ⊎ ((key : Text) × (v : Json) × (as_key f ≡ prepared key)
        × (reads key ≡ some v)
        × (rs ≡ options)
        × (d ≡ default_ratio (parse_aspect_ratio v)))

with_field-Advertises :
    (options : List AspectRatio) (key : Text) (reads : Text → Option Json) (o : Option Json)
    → reads key ≡ o
    → Advertises options (text key) reads (with_field options o)
with_field-Advertises options key reads none e = inl refl
with_field-Advertises options key reads (some v) e = inr (key, v, refl, e, refl, refl)

in_inputs-Advertises :
    (options : List AspectRatio) (f : Json) (i : Option Json) (o : Option Object)
    → as_object i ≡ o
    → Holds AnyError (Advertises options f (λ key. input_in key i)) (in_inputs options f o)
in_inputs-Advertises options f i none e = inl refl
in_inputs-Advertises options (text key) i (some inputs) e =
    with_field-Advertises options key (λ k. input_in k i) (get key inputs)
      (ap (input_in key) (as_object-some i inputs e))
in_inputs-Advertises options (array xs) i (some inputs) e = tt
in_inputs-Advertises options (object o) i (some inputs) e = tt
in_inputs-Advertises options null i (some inputs) e = inl refl
in_inputs-Advertises options (boolean b) i (some inputs) e = inl refl
in_inputs-Advertises options (integer b n) i (some inputs) e = inl refl
in_inputs-Advertises options (float b t) i (some inputs) e = inl refl

in_node-Advertises :
    (options : List AspectRatio) (f : Json) (j : Option Json) (o : Option Object)
    → as_object j ≡ o
    → Holds AnyError (Advertises options f (λ key. input_at key j)) (in_node options f o)
in_node-Advertises options f j none e = inl refl
in_node-Advertises options f j (some node) e =
    subst
      (λ j.
        Holds AnyError (Advertises options f (λ key. input_at key j))
          (in_node options f (some node)))
      (sym (as_object-some j node e))
      (in_inputs-Advertises options f (get (codes "inputs") node)
        (as_object (get (codes "inputs") node)) refl)

module _ (meta : Object) (graph : Option Object) where
  -- what is known of the options and the default of a workflow
  abbrev pub AreDeclared : Ratios → Type 0
  AreDeclared (rs, d) =
      (rs ≡ [])
      ⊎ ((g : Object) × (id : Text) × (key : Text) × (v : Json) × (graph ≡ some g)
          × (str (some (or_default null (get (codes "aspect_ratio_node") meta))) ≡ prepared id)
          × (as_key (field (codes "aspect_ratio_field") (codes "aspect_ratio") meta) ≡ prepared key)
          × (input_of id key g ≡ some v)
          × (rs ≡ parse_aspect_ratios (or_default null (get (codes "aspect_ratios") meta)))
          × (d ≡ default_ratio (parse_aspect_ratio v)))

  checked-AreDeclared :
      (options : List AspectRatio) (g : Option Object)
      → parse_aspect_ratios (or_default null (get (codes "aspect_ratios") meta)) ≡ options
      → graph ≡ g
      → Holds AnyError AreDeclared
          (checked meta (or_default null (get (codes "aspect_ratio_node") meta)) g options)
  checked-AreDeclared [] g p e = inl refl
  checked-AreDeclared (o ∷ os) none p e = inl refl
  checked-AreDeclared (o ∷ os) (some g) p e =
      Holds-bind AnyError (λ id. str (some node) ≡ prepared id) AreDeclared (str (some node)) _
        (Holds-self AnyError (λ _. Unit {0}) (str (some node)) (anything (str (some node))))
        (λ id q.
          Holds-map AnyError _ _ (in_node (o ∷ os) _ (as_object (get id g))) (declared id q)
            (in_node-Advertises (o ∷ os) _ (get id g) (as_object (get id g)) refl))
    where
      node : Json
      node = or_default null (get (codes "aspect_ratio_node") meta)

      anything : {A : Type 0} (m : Prepared A) → Holds AnyError (λ _. Unit {0}) m
      anything (prepared a) = tt
      anything (refused e) = tt

      declared :
          (id : Text)
          → str (some node) ≡ prepared id
          → (r : Ratios)
          → Advertises
              (o ∷ os)
              (field (codes "aspect_ratio_field") (codes "aspect_ratio") meta)
              (λ key. input_of id key g)
              r
          → AreDeclared r
      declared id q (rs, d) (inl h) = inl h
      declared id q (rs, d) (inr (key, v, k, i, h, h')) =
          inr (g, id, key, v, e, q, k, i, h ∙ sym p, h')

-- A workflow advertises no ratios, or the graph could be read, its node named by
-- `aspect_ratio_node` has the input named by `aspect_ratio_field`, the ratios are those that the
-- metadata lists, and the default is the one that the input holds, if it holds a ratio.
pub resolve_aspect_ratios-AreDeclared :
    (meta : Object) (graph : Option Object) (ratios : Ratios)
    → resolve_aspect_ratios meta graph ≡ prepared ratios
    → AreDeclared meta graph ratios
unfolding resolve_aspect_ratios
resolve_aspect_ratios-AreDeclared meta graph ratios =
    Holds-prepared AnyError (AreDeclared meta graph) (resolve_aspect_ratios meta graph) ratios (
      on_test (Holds AnyError (AreDeclared meta graph))
        (is_none (or_default null (get (codes "aspect_ratio_node") meta))
          || is_none (or_default null (get (codes "aspect_ratios") meta)))
        (λ _. inl refl)
        (λ _.
          checked-AreDeclared meta graph
            (parse_aspect_ratios (or_default null (get (codes "aspect_ratios") meta))) graph refl
            refl))
