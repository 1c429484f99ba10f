-- ===== src/Workflows/Scan.antt =====
-- backends/comfyui/workflows.py: `scan_workflows` and what it is made of. `names` are the names that
-- `sorted(workflows_dir.glob("*.json"))` gives; `exists` and `load` stand for the file system and
-- `json.loads`, with `none` for a file that cannot be read or decoded; `lower` is `str.lower`.
-- `check_meta` only logs.
use openai_api_bridge.Prelude.{
  Bool, true, false, not, Option, none, some, List, [], ◌∷◌, ◌++◌, ◌||◌, if◌then◌else◌, Text, codes,
  text_eq, show, before_suffix,
}
use openai_api_bridge.Json.{
  Json, null, integer, text, array, object, Items, nil, cons, Object, empty, member, get, set, has,
  truthy,
}
use openai_api_bridge.Aspect.{AspectRatio, parse_aspect_ratio, parse_aspect_ratios}
use openai_api_bridge.Ids.{slugify}
use openai_api_bridge.Workflows.{
  AssetKind, image, video, WorkflowRecord, Prepared, prepared, refused, crashed, ◌>>=◌, or_default,
  field,
}
use openai_api_bridge.Workflows.Seeds.{str}

-- `_node_id`
abbrev pub node_id : Json → Json
node_id (integer true n) = text (b'-' ∷ show n)
node_id (integer false n) = text (show n)
node_id value = value

abbrev node_ids : Items → Items
node_ids nil = nil
node_ids (cons j js) = cons (node_id j) (node_ids js)

abbrev normal_spec : Json → Json
normal_spec (object spec) =
    object (set (codes "node") (node_id (or_default null (get (codes "node") spec))) spec)
normal_spec spec = spec

abbrev normal_specs : Items → Items
normal_specs nil = nil
normal_specs (cons j js) = cons (normal_spec j) (normal_specs js)

abbrev in_object : (Json → Json) → Text → Option Json → Object → Object
in_object f key none meta = meta
in_object f key (some j) meta = set key (f j) meta

-- `if key in out: out[key] = f(out[key])`
abbrev update_key : (Json → Json) → Text → Object → Object
update_key f key meta = in_object f key (get key meta) meta

abbrev list_of : (Items → Items) → Json → Json
list_of f (array items) = array (f items)
list_of f j = j

unfoldable pub normalize_node_ids : Object → Object
unfolding get set show
normalize_node_ids meta = update_key (list_of node_ids) (codes "seed_nodes") (
    update_key (list_of normal_specs) (codes "image_inputs") (
      update_key node_id (codes "aspect_ratio_node") (
        update_key node_id (codes "length_node") (
          update_key node_id (codes "dimensions_node")
            (update_key node_id (codes "positive_prompt_node") meta)))))

-- `value in VIDEO_OUTPUT_CLASS_TYPES`
abbrev is_video_type : Json → Prepared Bool
is_video_type (text t) =
    prepared (text_eq t (codes "SaveVideo") || text_eq t (codes "VHS_VideoCombine"))
is_video_type (array _) = refused crashed
is_video_type (object _) = refused crashed
is_video_type _ = prepared false

abbrev is_video_node : Json → Prepared Bool
is_video_node (object node) = is_video_type (or_default null (get (codes "class_type") node))
is_video_node _ = prepared false

unfoldable pub has_video : Object → Prepared Bool
has_video empty = prepared false
has_video (member id node graph) =
    let rest = has_video graph in is_video_node node >>= λ b. if b then prepared true else rest

abbrev kind_of : Bool → AssetKind
kind_of true = video
kind_of false = image

unfoldable pub output_type_of : Object → Prepared AssetKind
unfolding has_video
output_type_of graph = has_video graph >>= λ b. prepared (kind_of b)

abbrev pub Ratios : Type 0
Ratios = List AspectRatio × Option Text

abbrev pub default_ratio : Option AspectRatio → Option Text
default_ratio none = none
default_ratio (some r) = some r.value'

-- the input named by the field, among the node's
abbrev pub with_field : List AspectRatio → Option Json → Ratios
with_field options none = ([], none)
with_field options (some v) = (options, default_ratio (parse_aspect_ratio v))

-- a value that is an object
abbrev pub as_object : Option Json → Option Object
as_object (some (object o)) = some o
as_object _ = none

abbrev pub in_inputs : List AspectRatio → Json → Option Object → Prepared Ratios
in_inputs options f none = prepared ([], none)
in_inputs options (text f) (some inputs) = prepared (with_field options (get f inputs))
in_inputs options (array _) (some inputs) = refused crashed
in_inputs options (object _) (some inputs) = refused crashed
in_inputs options _ (some inputs) = prepared ([], none)

abbrev pub in_node : List AspectRatio → Json → Option Object → Prepared Ratios
in_node options f none = prepared ([], none)
in_node options f (some node) = in_inputs options f (as_object (get (codes "inputs") node))

-- with both halves of the declaration, against the graph
abbrev pub checked : Object → Json → Option Object → List AspectRatio → Prepared Ratios
checked meta id graph [] = prepared ([], none)
checked meta id none (o ∷ os) = prepared ([], none)
checked meta id (some graph) (o ∷ os) = do
  key ← str (some id)
  in_node (o ∷ os) (field (codes "aspect_ratio_field") (codes "aspect_ratio") meta)
      (as_object (get key graph))

abbrev pub is_none : Json → Bool
is_none null = true
is_none _ = false

unfoldable pub resolve_aspect_ratios : Object → Option Object → Prepared Ratios
unfolding parse_aspect_ratio parse_aspect_ratios show
resolve_aspect_ratios meta graph =
    let id = or_default null (get (codes "aspect_ratio_node") meta) in
    let raw = or_default null (get (codes "aspect_ratios") meta) in
    if is_none id || is_none raw
    then prepared ([], none)
    else checked meta id graph (parse_aspect_ratios raw)

abbrev or_else : Text → Option Text → Text
or_else t none = t
or_else t (some u) = u

abbrev pub ends_with : Option Text → Bool
ends_with none = false
ends_with (some t) = true

-- `json_path.name.removesuffix(".json")`
abbrev pub base_of : Text → Text
base_of name = or_else name (before_suffix (codes ".json") name)

abbrev pub is_kind : Text → Json → Bool
is_kind k (text t) = text_eq t k
is_kind k _ = false

abbrev pub is_empty : Text → Bool
is_empty [] = true
is_empty (c ∷ s) = false

-- `d.get(slug)`, on the records found so far
unfoldable pub has_slug : Text → List (Text × WorkflowRecord) → Bool
has_slug slug [] = false
has_slug slug ((s, r) ∷ out) = text_eq s slug || has_slug slug out

module _ (exists : Text → Bool) (load : Text → Option Json) (lower : Text → Text) where
  abbrev pub Found : Type 0
  Found = List (Text × WorkflowRecord)

  abbrev pub add_record : Text → Object → AssetKind → Ratios → Found → Found
  add_record name meta kind (ratios, default) out =
      let slug = slugify lower (base_of name) in
      let display = or_default null (get (codes "display_name") meta) in
      let found : Text × WorkflowRecord = (
        slug,
        record {
          slug = slug;
          json_path = name;
          meta = meta;
          output_type = kind;
          display_name = if truthy display then display else text (base_of name);
          aspect_ratios = ratios;
          aspect_ratio_default = default;
        },
      ) in
      if is_empty slug || has_slug slug out then out else out ++ found ∷ []

  abbrev pub resolved : Text → Object → Option Object → Found → AssetKind → Prepared Found
  resolved name meta graph out kind = do
    ratios ← resolve_aspect_ratios meta graph
    prepared (add_record name meta kind ratios out)

  abbrev pub autodetected : Text → Object → Option Object → Found → Prepared Found
  autodetected name meta none out = prepared out
  autodetected name meta (some graph) out =
      output_type_of graph >>= resolved name meta (some graph) out

  abbrev pub with_meta : Text → Object → Found → Prepared Found
  with_meta name meta out =
      let declared = or_default null (get (codes "output_type") meta) in
      let wants_aspect =
        not (is_none (or_default null (get (codes "aspect_ratio_node") meta)))
        || has (codes "aspect_ratios") meta in
      let graph = as_object (load name) in
      if is_kind (codes "image") declared || is_kind (codes "video") declared
      then resolved name meta (if wants_aspect then graph else none) out
          (if is_kind (codes "video") declared then video else image)
      else autodetected name meta graph out

  abbrev pub loaded : Text → Option Json → Found → Prepared Found
  loaded name (some (object meta)) out =
      if has (codes "positive_prompt_node") meta
      then with_meta name (normalize_node_ids meta) out
      else prepared out
  loaded name _ out = prepared out

  abbrev pub scan_file : Text → Found → Prepared Found
  scan_file name out =
      let meta_name = base_of name ++ codes ".meta.json" in
      if ends_with (before_suffix (codes ".meta.json") name)
      then prepared out
      else if exists meta_name
      then loaded name (load meta_name) out
      else prepared out

  unfoldable pub scan_workflows : List Text → Found → Prepared Found
  unfolding normalize_node_ids output_type_of resolve_aspect_ratios before_suffix has_slug slugify
  scan_workflows [] out = prepared out
  scan_workflows (name ∷ names) out = scan_file name out >>= scan_workflows names
