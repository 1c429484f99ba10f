-- ===== src/Workflows.antt =====
-- backends/comfyui/workflows.py: `prepare_workflow` and what it is made of. The graph is the parsed
-- one; what `json.dumps` makes of a list of file names, the draws of `rng` and the distance of two
-- ratios are parameters. A field name or a node id that is neither a text nor unhashable, where the
-- code uses it as a key, gives `unmodelled`; any other Python error gives `crashed`.
pub mod Seeds
pub mod Scan
pub mod Writes
pub mod Frame
pub mod Outline
pub mod Capacity
pub mod Images
pub mod Overwrites
pub mod Placement
pub mod Readiness
pub mod Ratio
pub mod Echo
pub mod Declared
pub mod Slugs
mod Tests
use openai_api_bridge.Prelude.{
  ℕ, zero, suc, ◌-◌, Bool, true, false, Option, none, some, List, [], ◌∷◌, ◌&&◌, if◌then◌else◌,
  length, Text, codes, text_eq, show,
}
use openai_api_bridge.Json.{
  Json, null, boolean, integer, float, text, array, object, Items, nil, cons, Object, empty, member,
  get, set, has, truthy,
}
use openai_api_bridge.Aspect.{AspectRatio, snap_aspect_ratio}

pub data Failure : Type 0 where
  workflow_invalid : Failure
  -- how many images the workflow takes, and how many were supplied
  unsupported_operation : ℕ → ℕ → Failure
  crashed : Failure
  unmodelled : Failure

pub data Prepared {ℓ} (A : Type ℓ) : Type ℓ where
  prepared : A → Prepared A
  refused : Failure → Prepared A

infixl 5 ◌>>=◌
abbrev pub ◌>>=◌ {ℓ κ} : {A : Type ℓ} {B : Type κ} → Prepared A → (A → Prepared B) → Prepared B
prepared a >>= f = f a
refused e >>= f = refused e

pub data AssetKind : Type 0 where
  image : AssetKind
  video : AssetKind

pub record WorkflowRecord : Type 0 where
  pub slug : Text
  pub json_path : Text
  pub meta : Object
  pub output_type : AssetKind
  pub display_name : Json
  pub aspect_ratios : List AspectRatio
  pub aspect_ratio_default : Option Text

-- `d.get(key, default)`
abbrev pub or_default : Json → Option Json → Json
or_default d none = d
or_default d (some j) = j

abbrev pub field : Text → Text → Object → Json
field k d meta = or_default (text d) (get k meta)

-- a value as the key of a dict
abbrev pub as_key : Json → Prepared Text
as_key (text t) = prepared t
as_key (array _) = refused crashed
as_key (object _) = refused crashed
as_key _ = refused unmodelled

-- the inputs that `node["inputs"]` or, with a default, `node.setdefault("inputs", {})` gives
abbrev pub inputs_in : Bool → Option Json → Object → Prepared (Object × Object)
inputs_in setdefault (some (object inputs)) n = prepared (n, inputs)
inputs_in setdefault (some _) n = refused crashed
inputs_in setdefault none n = if setdefault then prepared (n, empty) else refused crashed

abbrev pub inputs_of : Bool → Option Json → Prepared (Object × Object)
inputs_of setdefault (some (object n)) = inputs_in setdefault (get (codes "inputs") n) n
inputs_of setdefault _ = refused crashed

abbrev pub with_input : Text → Object → Object → Text → Json → Object → Object
with_input id n inputs f v w = set id (object (set (codes "inputs") (object (set f v inputs)) n)) w

-- `workflow[id]["inputs"][f] = v`, or with `.setdefault("inputs", {})` for `["inputs"]`
unfoldable pub write_input : Bool → Text → Json → Json → Object → Prepared Object
write_input setdefault id f v w = do
  (n, inputs) ← inputs_of setdefault (get id w)
  key ← as_key f
  prepared (with_input id n inputs key v w)

-- `node in workflow`, with the key that is found
abbrev pub find_node : Json → Object → Prepared (Option Text)
find_node (text t) w = prepared (if has t w then some t else none)
find_node (array _) w = refused crashed
find_node (object _) w = refused crashed
find_node _ w = prepared none

-- `node and node in workflow`
abbrev pub given_node : Json → Object → Prepared (Option Text)
given_node node w = if truthy node then find_node node w else prepared none

abbrev pub write_prompt : Text → Object → Object → Option Text → Prepared Object
write_prompt prompt meta w none = refused workflow_invalid
write_prompt prompt meta w (some id) =
    write_input true id (field (codes "positive_prompt_field") (codes "text") meta) (text prompt) w

abbrev pub required : Option Json → Prepared Json
required none = refused crashed
required (some j) = prepared j

unfoldable pub inject_prompt : Text → Object → Object → Prepared Object
unfolding write_input
inject_prompt prompt meta w = do
  node ← required (get (codes "positive_prompt_node") meta)
  found ← find_node node w
  write_prompt prompt meta w found

abbrev pub texts : List Text → Items
texts [] = nil
texts (t ∷ ts) = cons (text t) (texts ts)

abbrev is_filename : Json → Bool
is_filename (text t) = text_eq t (codes "filename")
is_filename _ = false

-- the node of an entry of `image_inputs`, unless the entry is passed over
abbrev pub usable : Object → Object → Prepared (Option Text)
usable spec w =
    if truthy (or_default null (get (codes "node") spec))
      && truthy (or_default null (get (codes "field") spec))
    then find_node (or_default null (get (codes "node") spec)) w
    else prepared none

abbrev pub multiple : Object → Bool
multiple spec = truthy (or_default (boolean false) (get (codes "multiple") spec))

abbrev pub no_surplus : ℕ → Object × List Text → Prepared Object
no_surplus supplied (w, []) = prepared w
no_surplus supplied (w, file ∷ files) =
    refused (unsupported_operation (supplied - length (file ∷ files)) supplied)

module _ (dumps : List Text → Text) where
  abbrev pub all_images : Object → List Text → Json
  all_images spec remaining =
      if is_filename (field (codes "format") (codes "filename") spec)
      then text (dumps remaining)
      else array (texts remaining)

  abbrev pub place_one : Text → Json → Object → List Text → Prepared (Object × List Text)
  place_one id f w [] = prepared (w, [])
  place_one id f w (file ∷ files) = do
    w' ← write_input false id f (text file) w
    prepared (w', files)

  abbrev pub place_all : Text → Object → Json → Object → List Text → Prepared (Object × List Text)
  place_all id spec f w files = do
    w' ← write_input false id f (all_images spec files) w
    prepared (w', [])

  abbrev pub place : Object → Object × List Text → Option Text → Prepared (Object × List Text)
  place spec st none = prepared st
  place spec (w, files) (some id) =
      if multiple spec
      then place_all id spec (or_default null (get (codes "field") spec)) w files
      else place_one id (or_default null (get (codes "field") spec)) w files

  abbrev pub place_spec : Json → Object × List Text → Prepared (Object × List Text)
  place_spec (object spec) (w, files) = usable spec w >>= place spec (w, files)
  place_spec _ st = refused crashed

  unfoldable pub place_each : Items → Object × List Text → Prepared (Object × List Text)
  unfolding write_input
  place_each nil st = prepared st
  place_each (cons spec specs) st = place_spec spec st >>= place_each specs

  abbrev pub place_images : Json → List Text → Object → Prepared Object
  place_images specs [] w = prepared w
  place_images (array (cons spec specs)) (file ∷ files) w =
      place_each (cons spec specs) (w, file ∷ files) >>= no_surplus (length (file ∷ files))
  place_images specs (file ∷ files) w = if truthy specs then refused crashed else prepared w

  unfoldable pub inject_images : Object → List Text → Object → Prepared Object
  unfolding place_each
  inject_images meta files w =
      place_images (or_default (array nil) (get (codes "image_inputs") meta)) files w
