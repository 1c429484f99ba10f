-- ===== src/Workflows/Seeds.antt =====
-- backends/comfyui/workflows.py: the seeds, the ratio, the size and the length of a run, and the
-- whole of `prepare_workflow`. `randint k lo hi` is the k-th draw of `rng`. The code goes over the
-- two seed fields in no fixed order.
use openai_api_bridge.Prelude.{
  ℕ, suc, Bool, true, false, Option, none, some, List, [], ◌∷◌, ◌++◌, ◌||◌, if◌then◌else◌, Text,
  codes, text_eq, after_prefix, show,
}
use openai_api_bridge.Json.{
  Json, null, boolean, integer, float, text, array, object, Items, nil, cons, Object, empty, member,
  get, set, truthy,
}
use openai_api_bridge.Aspect.{AspectRatio, snap_aspect_ratio}
use openai_api_bridge.Workflows.{
  WorkflowRecord, crashed, unmodelled, Prepared, prepared, refused, ◌>>=◌, field, or_default,
  write_input, find_node, given_node, inject_prompt, inject_images,
}

-- `isinstance(value, int | float)`; a bool is an int
abbrev is_number : Option Json → Bool
is_number (some (integer _ _)) = true
is_number (some (float _ _)) = true
is_number (some (boolean _)) = true
is_number _ = false

-- `name in value`, for a value that is a list or a text
unfoldable pub holds_text : Text → Items → Bool
holds_text t nil = false
holds_text t (cons (text u) items) = text_eq t u || holds_text t items
holds_text t (cons _ items) = holds_text t items

abbrev is_some : Option Text → Bool
is_some none = false
is_some (some _) = true

unfoldable pub occurs_in : Text → Text → Bool
unfolding after_prefix
occurs_in t [] = is_some (after_prefix t [])
occurs_in t (c ∷ u) = is_some (after_prefix t (c ∷ u)) || occurs_in t u

unfoldable pub keys : Object → List Text
keys empty = []
keys (member k v o) = k ∷ keys o

unfoldable pub listed : Text → List Text → Bool
listed t [] = false
listed t (u ∷ us) = text_eq u t || listed t us

-- the keys of `{nid: workflow[nid] for nid in seed_nodes if nid in workflow}`
abbrev add_id : Option Text → List Text → List Text
add_id none ids = ids
add_id (some id) ids = if listed id ids then ids else ids ++ id ∷ []

unfoldable pub seeded_ids : Object → List Text → Items → Prepared (List Text)
unfolding listed
seeded_ids w ids nil = prepared ids
seeded_ids w ids (cons n ns) = find_node n w >>= λ found. seeded_ids w (add_id found ids) ns

abbrev pub nodes_to_seed : Json → Object → Prepared (List Text)
nodes_to_seed (array (cons n ns)) w = seeded_ids w [] (cons n ns)
nodes_to_seed (text (_ ∷ _)) w = refused unmodelled
nodes_to_seed (object (member _ _ _)) w = refused unmodelled
nodes_to_seed other w = if truthy other then refused crashed else prepared (keys w)

module _ (randint : ℕ → ℕ → ℕ → ℕ) where
  -- `inputs[name] = rng.randint(0, 2**32 - 1)`, of a field that holds a number
  abbrev pub seed_field : Text → Object × ℕ → Object × ℕ
  seed_field name (inputs, k) =
      if is_number (get name inputs)
      then (set name (integer false (randint k 0 4294967295)) inputs, suc k)
      else (inputs, k)

  abbrev pub seed_fields : Object × ℕ → Object × ℕ
  seed_fields st = seed_field (codes "noise_seed") (seed_field (codes "seed") st)

  abbrev pub with_inputs : Text → Object → Object → Object × ℕ → Object × ℕ
  with_inputs id n w (inputs, k) = (set id (object (set (codes "inputs") (object inputs) n)) w, k)

  abbrev pub seed_in : Text → Object → Option Json → Object × ℕ → Prepared (Object × ℕ)
  seed_in id n none st = prepared st
  seed_in id n (some (object inputs)) (w, k) =
      prepared (with_inputs id n w (seed_fields (inputs, k)))
  seed_in id n (some (array items)) st =
      if holds_text (codes "seed") items || holds_text (codes "noise_seed") items
      then refused crashed
      else prepared st
  seed_in id n (some (text t)) st =
      if occurs_in (codes "seed") t then refused crashed else prepared st
  seed_in id n (some _) st = refused crashed

  abbrev pub seed_node : Text → Option Json → Object × ℕ → Prepared (Object × ℕ)
  seed_node id (some (object n)) st = seed_in id n (get (codes "inputs") n) st
  seed_node id _ st = prepared st

  unfoldable pub seed_each : List Text → Object × ℕ → Prepared Object
  unfolding holds_text occurs_in
  seed_each [] (w, k) = prepared w
  seed_each (id ∷ ids) (w, k) = seed_node id (get id w) (w, k) >>= seed_each ids

  unfoldable pub randomize_seeds : Object → Object → Prepared Object
  unfolding seed_each seeded_ids keys
  randomize_seeds meta w =
      nodes_to_seed (or_default null (get (codes "seed_nodes") meta)) w >>= λ ids.
      seed_each ids (w, 0)

-- `str(value)`
abbrev pub str : Option Json → Prepared Text
str none = refused crashed
str (some null) = prepared (codes "None")
str (some (boolean true)) = prepared (codes "True")
str (some (boolean false)) = prepared (codes "False")
str (some (integer true n)) = prepared (b'-' ∷ show n)
str (some (integer false n)) = prepared (show n)
str (some (text t)) = prepared t
str (some _) = refused unmodelled

abbrev pub write_ratio : Object → Option AspectRatio → Object → Text → Option Json → Prepared Object
write_ratio meta (some chosen) w id (some (object n)) =
    write_input true id (field (codes "aspect_ratio_field") (codes "aspect_ratio") meta)
      (text chosen.literal) w
write_ratio meta _ w id _ = prepared w

abbrev pub write_positive : Json → Option ℕ → Option Text → Object → Prepared Object
write_positive f (some (suc n)) (some id) w = write_input false id f (integer false (suc n)) w
write_positive f _ _ w = prepared w

abbrev pub requested_ratio : Option Text → Json
requested_ratio none = null
requested_ratio (some t) = text t

unfoldable pub inject_ratio : Object → Option AspectRatio → Object → Prepared Object
unfolding write_input show
inject_ratio meta chosen w = do
  id ← str (get (codes "aspect_ratio_node") meta)
  write_ratio meta chosen w id (get id w)

unfoldable pub inject_dimensions : Object → Option ℕ → Option ℕ → Object → Prepared Object
unfolding write_input
inject_dimensions meta width height w = do
  id ← given_node (or_default null (get (codes "dimensions_node") meta)) w
  w ← write_positive (field (codes "width_field") (codes "width") meta) width id w
  write_positive (field (codes "height_field") (codes "height") meta) height id w

unfoldable pub inject_length : Object → Option ℕ → Object → Prepared Object
unfolding write_input
inject_length meta length w = do
  id ← given_node (or_default null (get (codes "length_node") meta)) w
  write_positive (field (codes "length_field") (codes "value") meta) length id w

pub record Request : Type 0 where
  pub prompt_text : Text
  pub image_filenames : List Text
  pub width : Option ℕ
  pub height : Option ℕ
  pub aspect_ratio : Option Text
  pub length : Option ℕ

module _ (distance : AspectRatio → AspectRatio → ℕ) where
  abbrev pub choose : List AspectRatio → Request → Option AspectRatio
  choose ratios r = snap_aspect_ratio distance (requested_ratio r.aspect_ratio) ratios

  abbrev pub value_or : Option AspectRatio → Option Text → Option Text
  value_or (some chosen) d = some chosen.value'
  value_or none d = d

  unfoldable pub effective_aspect_ratio : WorkflowRecord → Option Text → Option Text
  unfolding snap_aspect_ratio
  effective_aspect_ratio record_ requested =
      value_or (snap_aspect_ratio distance (requested_ratio requested) record_.aspect_ratios)
        record_.aspect_ratio_default

module _ (dumps : List Text → Text) (randint : ℕ → ℕ → ℕ → ℕ)
    (distance : AspectRatio → AspectRatio → ℕ) where
  -- a workflow with ratios takes the ratio, any other one the size
  abbrev pub inject_shape : Object → Request → List AspectRatio → Object → Prepared Object
  inject_shape meta r [] w = inject_dimensions meta r.width r.height w
  inject_shape meta r (o ∷ os) w = inject_ratio meta (choose distance (o ∷ os) r) w

  unfoldable pub prepare_workflow : WorkflowRecord → Request → Object → Prepared Object
  unfolding inject_prompt inject_images randomize_seeds inject_ratio inject_dimensions inject_length
  prepare_workflow record_ r workflow = do
    workflow ← inject_prompt r.prompt_text record_.meta workflow
    workflow ← inject_images dumps record_.meta r.image_filenames workflow
    workflow ← randomize_seeds randint record_.meta workflow
    workflow ← inject_shape record_.meta r record_.aspect_ratios workflow
    inject_length record_.meta r.length workflow
