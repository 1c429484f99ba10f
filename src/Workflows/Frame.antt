-- ===== src/Workflows/Frame.antt =====
-- What a preparation leaves alone in the graph.
use openai_api_bridge.Prelude.{
  ◌≡◌, sym, ap, ◌∙◌, ◌⊎◌, inl, inr, Bool, true, false, Option, none, some, List, [], ◌∷◌,
  if◌then◌else◌, Text, codes, text_eq, text_eq_sound, Bool-cases, on_test,
}
use openai_api_bridge.Json.{
  Json, null, boolean, integer, float, text, array, object, Items, nil, cons, Object, empty, get,
  set,
}
use openai_api_bridge.Json.Members.{get-set}
use openai_api_bridge.Workflows.{
  Prepared, or_default, write_input, find_node, inject_prompt, usable, multiple, place_each, place,
  place_spec, place_one, all_images, write_prompt, required,
}
use openai_api_bridge.Workflows.Writes.{
  Holds, Holds-bind, Holds-any, after, AnyError, IsStray, write_input-Holds,
}

-- two nodes that are the same, or two objects that differ in their inputs only
abbrev pub IsKept : Option Json → Option Json → Type 0
IsKept a b =
    (a ≡ b)
    ⊎ ((m : Object) × (n : Object) × (a ≡ some (object m))
        × (b ≡ some (object n))
        × ((k : Text) → text_eq (codes "inputs") k ≡ false → get k n ≡ get k m))

pub data Kept (v w : Object) : Type 0 where
  kept : ((j : Text) → IsKept (get j v) (get j w)) → Kept v w

node_of : Json → Object
node_of (object o) = o
node_of _ = empty

abbrev some_node : Option Json → Object
some_node none = empty
some_node (some j) = node_of j

IsKept-trans : {a b c : Option Json} → IsKept a b → IsKept b c → IsKept a c
unfolding node_of
IsKept-trans (inl e) (inl f) = inl (e ∙ f)
IsKept-trans (inl e) (inr (m, n, p, q, s)) = inr (m, n, e ∙ p, q, s)
IsKept-trans (inr (m, n, p, q, s)) (inl e) = inr (m, n, p, sym e ∙ q, s)
IsKept-trans (inr (m, n, p, q, s)) (inr (m', n', p', q', s')) =
    inr (m, n', p, q', λ k h. s' k h ∙ ap (λ o. get k o) (ap some_node (sym p' ∙ q)) ∙ s k h)

abbrev pub Keeps : Object → Prepared Object → Type 0
Keeps v m = Holds AnyError (Kept v) m

-- giving a node other inputs
pub Kept-inputs :
    (u w : Object) (id : Text) (n i : Object)
    → get id w ≡ some (object n)
    → Kept u w
    → Kept u (set id (object (set (codes "inputs") (object i) n)) w)
Kept-inputs u w id n i e (kept h) = kept λ j. IsKept-trans (h j) (one j)
  where
    new : Json
    new = object (set (codes "inputs") (object i) n)

    one : (j : Text) → IsKept (get j w) (get j (set id new w))
    one j = elim (Bool-cases (text_eq id j)) [
      | inl p ↦ inr (
        n,
        set (codes "inputs") (object i) n,
        ap (λ t. get t w) (sym (text_eq_sound id j p)) ∙ e,
        get-set id j new w ∙ ap (λ b. if b then some new else get j w) p,
        λ k q.
            get-set (codes "inputs") k (object i) n
            ∙ ap (λ b. if b then some (object i) else get k n) q,
      )
      | inr p ↦ inl (sym (get-set id j new w ∙ ap (λ b. if b then some new else get j w) p))
    ]

module _ (u : Object) where
  pub write_input-Kept :
      (d : Bool) (id : Text) (f v : Json) (w : Object) → Kept u w → Keeps u (write_input d id f v w)
  write_input-Kept d id f v w h =
      Holds-any IsStray (Kept u) (write_input d id f v w)
        (write_input-Holds (Kept u) d id f v w λ n i e. Kept-inputs u w id n i e h)

  write_prompt-Kept :
      (t : Text) (meta w : Object) (found : Option Text)
      → Kept u w
      → Keeps u (write_prompt t meta w found)
  write_prompt-Kept t meta w none h = tt
  write_prompt-Kept t meta w (some id) h = write_input-Kept true id _ _ w h

  pub inject_prompt-Kept :
      (t : Text) (meta w : Object) → Kept u w → Keeps u (inject_prompt t meta w)
  unfolding inject_prompt
  inject_prompt-Kept t meta w h =
      after (Kept u) (required (get (codes "positive_prompt_node") meta)) _
        λ node. after (Kept u) (find_node node w) _ λ found. write_prompt-Kept t meta w found h

  -- the graph of a graph and the images that are left
  abbrev KeepsFst : Prepared (Object × List Text) → Type 0
  KeepsFst m = Holds AnyError (λ st. Kept u (st.0)) m

  place-Kept :
      (dumps : List Text → Text) (spec w : Object) (files : List Text) (found : Option Text)
      → Kept u w
      → KeepsFst (place dumps spec (w, files) found)
  place-Kept dumps spec w files none h = h
  place-Kept dumps spec w files (some id) h =
      on_test KeepsFst (multiple spec)
        (λ _.
          Holds-bind AnyError (Kept u) (λ st. Kept u (st.0))
            (write_input false id (or_default null (get (codes "field") spec))
              (all_images dumps spec files) w)
            _ (write_input-Kept false id _ _ w h) (λ w' k. k))
        (λ _. one files)
    where
      one :
          (fs : List Text)
          → KeepsFst (place_one dumps id (or_default null (get (codes "field") spec)) w fs)
      one [] = h
      one (file ∷ fs) =
          Holds-bind AnyError (Kept u) (λ st. Kept u (st.0))
            (write_input false id (or_default null (get (codes "field") spec)) (text file) w) _
            (write_input-Kept false id _ _ w h) (λ w' k. k)

  place_spec-Kept :
      (dumps : List Text → Text) (spec : Json) (w : Object) (files : List Text)
      → Kept u w
      → KeepsFst (place_spec dumps spec (w, files))
  place_spec-Kept dumps (object spec) w files h =
      after (λ st. Kept u (st.0)) (usable spec w) _ λ found. place-Kept dumps spec w files found h
  place_spec-Kept dumps null w files h = tt
  place_spec-Kept dumps (boolean b) w files h = tt
  place_spec-Kept dumps (integer b n) w files h = tt
  place_spec-Kept dumps (float b t) w files h = tt
  place_spec-Kept dumps (text t) w files h = tt
  place_spec-Kept dumps (array xs) w files h = tt

  pub place_each-Kept :
      (dumps : List Text → Text) (specs : Items) (w : Object) (files : List Text)
      → Kept u w
      → KeepsFst (place_each dumps specs (w, files))
  unfolding place_each
  place_each-Kept dumps nil w files h = h
  place_each-Kept dumps (cons spec specs) w files h =
      Holds-bind AnyError (λ st. Kept u (st.0)) (λ st. Kept u (st.0))
        (place_spec dumps spec (w, files)) _ (place_spec-Kept dumps spec w files h)
        (λ (w', files') k. place_each-Kept dumps specs w' files' k)
