-- ===== src/Workflows/Capacity.antt =====
-- How many images the entries of `image_inputs` take.
use openai_api_bridge.Prelude.{
  ℕ, suc, ◌≡◌, refl, sym, ap, ◌∙◌, ◌&&◌, inl, inr, Bool, Option, none, some, if◌then◌else◌, Text,
  codes, on_test,
}
use openai_api_bridge.Json.{
  Json, null, boolean, integer, float, text, array, object, Items, nil, cons, Object, get, has,
  is_present, truthy,
}
use openai_api_bridge.Workflows.{Prepared, prepared, or_default, find_node, usable, multiple}
use openai_api_bridge.Workflows.Writes.{Holds, IsStray}
use openai_api_bridge.Workflows.Frame.{Kept, kept, IsKept}

-- the number of files that one entry takes, given what those after it take: `none` is no bound
abbrev pub with_entry : Bool → Prepared (Option Text) → Option ℕ → Option ℕ
with_entry many (prepared (some id)) rest =
    if many then none else elim rest [ none ↦ none | some n ↦ some (suc n) ]
with_entry many _ rest = rest

-- the number of files that the entries take in the given graph
unfoldable pub capacity : Object → Items → Option ℕ
capacity w nil = some 0
capacity w (cons (object spec) specs) =
    with_entry (multiple spec) (usable spec w) (capacity w specs)
capacity w (cons _ specs) = capacity w specs

has-Kept : (w w' : Object) (j : Text) → Kept w w' → has j w' ≡ has j w
has-Kept w w' j (kept h) = same (h j)
  where
    same : {a b : Option Json} → IsKept a b → is_present b ≡ is_present a
    same (inl e) = ap is_present (sym e)
    same (inr (m, n, p, q, s)) = ap is_present q ∙ ap is_present (sym p)

find_node-Kept : (j : Json) (w w' : Object) → Kept w w' → find_node j w' ≡ find_node j w
find_node-Kept (text t) w w' h = ap (λ b. prepared (if b then some t else none)) (has-Kept w w' t h)
find_node-Kept null w w' h = refl
find_node-Kept (boolean b) w w' h = refl
find_node-Kept (integer b n) w w' h = refl
find_node-Kept (float b t) w w' h = refl
find_node-Kept (array xs) w w' h = refl
find_node-Kept (object o) w w' h = refl

find_node-IsStray : (j : Json) (w : Object) → Holds IsStray (λ _. Unit {0}) (find_node j w)
find_node-IsStray (text t) w = tt
find_node-IsStray null w = tt
find_node-IsStray (boolean b) w = tt
find_node-IsStray (integer b n) w = tt
find_node-IsStray (float b t) w = tt
find_node-IsStray (array xs) w = tt
find_node-IsStray (object o) w = tt

pub usable-Kept : (spec w w' : Object) → Kept w w' → usable spec w' ≡ usable spec w
usable-Kept spec w w' h =
    ap
      (λ m.
        if truthy (or_default null (get (codes "node") spec))
          && truthy (or_default null (get (codes "field") spec))
        then m
        else prepared none)
      (find_node-Kept (or_default null (get (codes "node") spec)) w w' h)

pub usable-IsStray : (spec w : Object) → Holds IsStray (λ _. Unit {0}) (usable spec w)
usable-IsStray spec w =
    on_test (Holds IsStray (λ _. Unit {0}))
      (truthy (or_default null (get (codes "node") spec))
        && truthy (or_default null (get (codes "field") spec)))
      (λ _. find_node-IsStray (or_default null (get (codes "node") spec)) w) (λ _. tt)

pub capacity-Kept :
    (specs : Items) (w w' : Object) → Kept w w' → capacity w' specs ≡ capacity w specs
unfolding capacity
capacity-Kept nil w w' h = refl
capacity-Kept (cons (object spec) specs) w w' h =
    ap (λ c. with_entry (multiple spec) (usable spec w') c) (capacity-Kept specs w w' h)
    ∙ ap (λ m. with_entry (multiple spec) m (capacity w specs)) (usable-Kept spec w w' h)
capacity-Kept (cons null specs) w w' h = capacity-Kept specs w w' h
capacity-Kept (cons (boolean b) specs) w w' h = capacity-Kept specs w w' h
capacity-Kept (cons (integer b n) specs) w w' h = capacity-Kept specs w w' h
capacity-Kept (cons (float b t) specs) w w' h = capacity-Kept specs w w' h
capacity-Kept (cons (text t) specs) w w' h = capacity-Kept specs w w' h
capacity-Kept (cons (array xs) specs) w w' h = capacity-Kept specs w w' h
