-- ===== src/Models.antt =====
-- From the configured providers to the listed models, and back from a model id to its backend:
-- `parse_model_id` and `_enforce_unique_ids` of config.py, the registry of dispatcher.py, and
-- api/models.py. `Config` and `Backend` are any types; `build` makes a backend of a config, and
-- `catalogue` is what a backend's `list_models` came to, and whether it did so within the budget.
pub mod Ids
pub mod Lookup
pub mod Routing
mod Tests
use openai_api_bridge.Prelude.{
  ℕ, zero, suc, ◌+◌, ◌≡◌, Bool, true, false, not, Option, none, some, List, [], ◌∷◌, ◌++◌, ◌==◌,
  ◌||◌, if◌then◌else◌, Text, codes, text_eq, contains, before,
}
use openai_api_bridge.Errors.{Exc, is_exception, Outcome, returned, raised}
use openai_api_bridge.Json.{
  Json, null, integer, boolean, text, array, Items, nil, cons, Object, empty, member,
}
use openai_api_bridge.Aspect.{AspectRatio, advertised}

-- the third part of `s.partition(sep)`
unfoldable pub after_first : ℕ → Text → Text
after_first sep [] = []
after_first sep (c ∷ s) = let rest = after_first sep s in if c == sep then s else rest

abbrev pub is_empty : Text → Bool
is_empty [] = true
is_empty (c ∷ s) = false

-- `none` is the `InvalidRequest`
unfoldable pub parse_model_id : Text → Option (Text × Text)
unfolding contains before after_first
parse_model_id model_id =
    if not (contains b'/' model_id)
    then none
    else if is_empty (before b'/' model_id) || is_empty (after_first b'/' model_id)
    then none
    else some (before b'/' model_id, after_first b'/' model_id)

abbrev pub is_in : Text → List Text → Bool
is_in t [] = false
is_in t (u ∷ us) = text_eq u t || is_in t us

-- `d[k] = v` and `d.get(k)`
module _ {V : Type 0} where
  unfoldable pub assign : Text → V → List (Text × V) → List (Text × V)
  assign k v [] = (k, v) ∷ []
  assign k v ((j, w) ∷ d) =
      let rest = assign k v d in if text_eq j k then (j, v) ∷ d else (j, w) ∷ rest

  unfoldable pub find : Text → List (Text × V) → Option V
  find k [] = none
  find k ((j, w) ∷ d) = if text_eq j k then some w else find k d

module _ {Config : Type 0} where
  -- the first id that is there twice, for which the code raises the `ConfigError`
  unfoldable pub enforce_unique_ids : List Text → List (Text × Config) → Option Text
  enforce_unique_ids seen [] = none
  enforce_unique_ids seen ((id, cfg) ∷ providers) =
      if is_in id seen then some id else enforce_unique_ids (id ∷ seen) providers

module _ {Config Backend : Type 0} where
  -- the loop of `BackendDispatcher.__init__`
  unfoldable pub register_all :
      (Config → Backend) → List (Text × Backend) → List (Text × Config) → List (Text × Backend)
  unfolding assign
  register_all build backends [] = backends
  register_all build backends ((id, cfg) ∷ providers) =
      register_all build (assign id (build cfg) backends) providers

-- `none` is the `ProviderNotFound`
abbrev pub for_provider : {Backend : Type 0} → List (Text × Backend) → Text → Option Backend
for_provider backends provider_id = find provider_id backends

pub data ModelKind : Type 0 where
  image video chat embedding : ModelKind

abbrev kind_name : ModelKind → Text
kind_name image = codes "image"
kind_name video = codes "video"
kind_name chat = codes "chat"
kind_name embedding = codes "embedding"

pub record ModelEntry : Type 0 where
  pub id : Text
  pub display_name : Option Text
  pub kind : Option ModelKind
  pub supports_tools : Option Bool
  pub context_window : Option ℕ
  pub capabilities : Option (List Text)
  pub prompt_style : Option Text
  pub prompt_hint : Option Text
  pub aspect_ratios : Option (List AspectRatio)
  pub aspect_ratio_default : Option Text

-- `entry.display_name or entry.id`
abbrev shown_name : ModelEntry → Option Text → Text
shown_name e none = e.id
shown_name e (some []) = e.id
shown_name e (some (c ∷ s)) = c ∷ s

abbrev text_items : List Text → Items
text_items [] = nil
text_items (t ∷ ts) = cons (text t) (text_items ts)

-- `if value is not None: row[key] = …`
abbrev with_some : {A : Type 0} → Text → (A → Json) → Option A → Object → Object
with_some key f none rest = rest
with_some key f (some a) rest = member key (f a) rest

-- a kind that is not known is listed as null
abbrev kind_or_null : Option ModelKind → Json
kind_or_null none = null
kind_or_null (some kind) = text (kind_name kind)

unfoldable pub row : ℕ → Text → ModelEntry → Object
unfolding advertised
row now provider_id e = member (codes "id") (text (provider_id ++ b'/' ∷ e.id)) (
    member (codes "object") (text (codes "model")) (
      member (codes "created") (integer false now) (
        member (codes "owned_by") (text provider_id) (
          member (codes "display_name") (text (shown_name e e.display_name)) (
            member (codes "kind") (kind_or_null e.kind) (
              with_some (codes "supports_tools") boolean e.supports_tools (
                with_some (codes "context_window") (integer false) e.context_window (
                  with_some (codes "capabilities") (λ cs. array (text_items cs)) e.capabilities
                    (with_some (codes "prompt_style") text e.prompt_style (
                      with_some (codes "prompt_hint") text e.prompt_hint (
                        with_some (codes "aspect_ratios") (λ rs. array (advertised rs))
                          e.aspect_ratios
                          (with_some (codes "aspect_ratio_default") text e.aspect_ratio_default
                            empty))))))))))))

pub record Fetch : Type 0 where
  pub outcome : Outcome (List ModelEntry)
  pub in_time : Bool

-- `_entries_for`
abbrev pub entries_for : Outcome (List ModelEntry) → Outcome (List ModelEntry)
entries_for (returned entries) = returned entries
entries_for (raised e) = if is_exception e then returned [] else raised e

-- `_entries_within`, where a budget of zero stands for none
unfoldable pub entries_within : ℕ → Fetch → Outcome (List ModelEntry)
unfolding is_exception
entries_within zero f = entries_for f.outcome
entries_within (suc budget) f = if f.in_time then entries_for f.outcome else returned []

unfoldable pub rows_of : ℕ → Text → List ModelEntry → List Object
unfolding row
rows_of now provider_id [] = []
rows_of now provider_id (e ∷ es) = row now provider_id e ∷ rows_of now provider_id es

abbrev pub then_rows : Outcome (List Object) → List Object → Outcome (List Object)
then_rows (returned rest) rows = returned (rows ++ rest)
then_rows (raised e) rows = raised e

abbrev pub add_rows :
    ℕ → Text → Outcome (List ModelEntry) → Outcome (List Object) → Outcome (List Object)
add_rows now provider_id (returned entries) rest = then_rows rest (rows_of now provider_id entries)
add_rows now provider_id (raised e) rest = raised e

module _ {Backend : Type 0} (catalogue : Backend → Fetch) where
  -- the rows of `GET /v1/models`, over `dispatcher.all_providers()`
  unfoldable pub list_models : ℕ → ℕ → List (Text × Backend) → Outcome (List Object)
  unfolding rows_of entries_within
  list_models budget now [] = returned []
  list_models budget now ((provider_id, backend) ∷ backends) =
      add_rows now provider_id (entries_within budget (catalogue backend))
        (list_models budget now backends)
