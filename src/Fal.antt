-- ===== src/Fal.antt =====
-- backends/fal/catalog.py: the catalogue of fal's models, the pairing of a model's text-driven and
-- image-driven halves, and the entries that are listed.
pub mod Pairs
pub mod Coverage
pub mod Entries
mod Tests
use openai_api_bridge.Prelude.{
  ℕ, Bool, true, false, not, Option, none, some, List, [], ◌∷◌, ◌++◌, ◌&&◌, ◌||◌, if◌then◌else◌,
  Text, codes, text_eq, before_suffix,
}
use openai_api_bridge.Json.{Json, text, object, Object, get}
use openai_api_bridge.Labels.{disambiguate_display_names}
use openai_api_bridge.Models.{assign, find, is_in, is_empty, ModelKind, image, video, ModelEntry}

-- `CATEGORY_KINDS.get(category)`
unfoldable pub category_kind : Text → Option ModelKind
unfolding text_eq
category_kind c =
    if text_eq c (codes "text-to-image") || text_eq c (codes "image-to-image")
    then some image
    else if text_eq c (codes "text-to-video") || text_eq c (codes "image-to-video")
    then some video
    else none

-- `_VARIANT_PAIRS.get(category)`
unfoldable pub variant_pair : Text → Option (Text × List Text)
unfolding text_eq
variant_pair c =
    if text_eq c (codes "text-to-image")
    then some
        (codes "image-to-image", codes "/edit" ∷ codes "/image-to-image" ∷ codes "/edit-image" ∷ [])
    else if text_eq c (codes "text-to-video")
    then some (codes "image-to-video", codes "/image-to-video" ∷ codes "/edit" ∷ [])
    else none

abbrev with_suffixes : Text → List Text → List Text
with_suffixes stem [] = []
with_suffixes stem (s ∷ ss) = (stem ++ s) ∷ with_suffixes stem ss

abbrev from_stem : Text → List Text → Option Text → List Text
from_stem id suffixes none = with_suffixes id suffixes
from_stem id suffixes (some stem) = with_suffixes stem suffixes ++ with_suffixes id suffixes

abbrev candidates_of : Text → Text → Option (Text × List Text) → List Text
candidates_of id category none = []
candidates_of id category (some (partner, suffixes)) =
    from_stem id suffixes (before_suffix (b'/' ∷ category) id)

unfoldable pub variant_candidates : Text → Text → List Text
unfolding variant_pair before_suffix
variant_candidates id category = candidates_of id category (variant_pair category)

abbrev text_of : Option Json → Option Text
text_of (some (text t)) = some t
text_of _ = none

abbrev object_of : Option Json → Option Object
object_of (some (object o)) = some o
object_of _ = none

abbrev text_in : Text → Option Object → Option Text
text_in key none = none
text_in key (some o) = text_of (get key o)

abbrev pub metadata_text : Text → Option Object → Option Text
metadata_text key none = none
metadata_text key (some item) = text_in key (object_of (get (codes "metadata") item))

abbrev pub Catalogue : Type 0
Catalogue = List (Text × Object)

unfoldable pub category_of : Catalogue → Text → Option Text
unfolding find get text_eq
category_of by_id id = metadata_text (codes "category") (find id by_id)

abbrev pub is_category : Text → Option Text → Bool
is_category c none = false
is_category c (some d) = text_eq d c

-- the first candidate that the catalogue has under the partner's category; an id that it has under
-- any category is in it
unfoldable pub first_partner : Catalogue → Text → List Text → Option Text
unfolding category_of
first_partner by_id partner [] = none
first_partner by_id partner (c ∷ cs) =
    let rest = first_partner by_id partner cs in
    if is_category partner (category_of by_id c) then some c else rest

abbrev pub partner_of : Catalogue → List Text → Option (Text × List Text) → Option Text
partner_of by_id candidates none = none
partner_of by_id candidates (some (partner, suffixes)) = first_partner by_id partner candidates

abbrev pub route_in : Catalogue → Text → Option Text → Option Text
route_in by_id id none = none
route_in by_id id (some category) =
    partner_of by_id (variant_candidates id category) (variant_pair category)

-- the turn of one model of the loop in `pair_variants`
unfoldable pub route_of : Catalogue → Text → Option Text
unfolding category_of first_partner variant_candidates variant_pair
route_of by_id id = route_in by_id id (category_of by_id id)

abbrev pub Routes : Type 0
Routes = List (Text × Text) × List Text

abbrev pub add_route : Text → Option Text → Routes → Routes
add_route id none st = st
add_route id (some c) (routes, collapsed) = (assign id c routes, c ∷ collapsed)

unfoldable pub pair_each : Catalogue → Catalogue → Routes → Routes
unfolding route_of assign
pair_each by_id [] st = st
pair_each by_id ((id, item) ∷ items) st =
    pair_each by_id items (add_route id (route_of by_id id) st)

unfoldable pub pair_variants : Catalogue → Bool → Routes
unfolding pair_each
pair_variants by_id collapse_variants =
    if collapse_variants then pair_each by_id by_id ([], []) else ([], [])

-- the item's id, where it is a text and not empty
abbrev pub some_id : Option Text → Option Text
some_id none = none
some_id (some t) = if is_empty t then none else some t

unfoldable pub endpoint_id : Object → Option Text
unfolding get text_eq
endpoint_id item = some_id (text_of (get (codes "endpoint_id") item))

abbrev pub assign_item : Option Text → Object → Catalogue → Catalogue
assign_item none item by_id = by_id
assign_item (some id) item by_id = assign id item by_id

-- `by_id`
unfoldable pub catalogue : List Object → Catalogue → Catalogue
unfolding endpoint_id assign
catalogue [] by_id = by_id
catalogue (item ∷ raw) by_id = catalogue raw (assign_item (endpoint_id item) item by_id)

pub record FalModelConfig : Type 0 where
  pub display_name : Option Text
  pub prompt_style : Option Text
  pub prompt_hint : Option Text

abbrev or_else : Text → Option Text → Text
or_else d none = d
or_else d (some t) = if is_empty t then d else t

abbrev kind_or_image : Option ModelKind → ModelKind
kind_or_image none = image
kind_or_image (some k) = k

abbrev with_partner : Text → Option Text → Option ModelKind → List Text
with_partner category (some partner) (some k) = category ∷ partner ∷ []
with_partner category _ _ = category ∷ []

abbrev partner_kind : Option Text → Option ModelKind
partner_kind none = none
partner_kind (some c) = category_kind c

abbrev routed_category : Catalogue → Option Text → Option Text
routed_category by_id none = none
routed_category by_id (some c) = category_of by_id c

abbrev capabilities_of : Catalogue → Text → Option Text → Option ModelKind → Option (List Text)
capabilities_of by_id category routed none = none
capabilities_of by_id category routed (some k) =
    let partner = routed_category by_id routed in
    some (with_partner category partner (partner_kind partner))

abbrev entry_capabilities : Catalogue → Option Text → Option Text → Option (List Text)
entry_capabilities by_id none routed = none
entry_capabilities by_id (some c) routed = capabilities_of by_id c routed (category_kind c)

abbrev kind_in : Option Text → Option ModelKind
kind_in none = none
kind_in (some c) = category_kind c

abbrev overridden : (FalModelConfig → Option Text) → Option FalModelConfig → Option Text
overridden f none = none
overridden f (some o) = f o

-- the configured name, or else the one in the metadata, or else the id
abbrev display_of : Text → Option FalModelConfig → Option Text → Text
display_of id o named = or_else (or_else id named) (overridden (λ o. o.display_name) o)

module _ (by_id : Catalogue) (models : List (Text × FalModelConfig))
    (routes : List (Text × Text)) where
  unfoldable pub entry : Text → Object → ModelEntry
  unfolding find get text_eq category_kind category_of
  entry id item =
      let override = find id models in
      let category = metadata_text (codes "category") (some item) in
      record {
        id = id;
        display_name =
            some (display_of id override (metadata_text (codes "display_name") (some item)));
        kind = some (kind_or_image (kind_in category));
        supports_tools = none;
        context_window = none;
        capabilities = entry_capabilities by_id category (find id routes);
        prompt_style = overridden (λ o. o.prompt_style) override;
        prompt_hint = overridden (λ o. o.prompt_hint) override;
        aspect_ratios = none;
        aspect_ratio_default = none;
      }

  abbrev pub is_passed : Text → List Text → List Text → Bool
  is_passed id seen collapsed = is_in id seen || is_in id collapsed

  unfoldable pub list_entries : List Text → List Text → List Object → List ModelEntry
  unfolding entry endpoint_id
  list_entries collapsed seen [] = []
  list_entries collapsed seen (item ∷ raw) = elim (endpoint_id item) [
    | none ↦ list_entries collapsed seen raw
    | some id ↦
        if is_passed id seen collapsed
        then list_entries collapsed seen raw
        else entry id item ∷ list_entries collapsed (id ∷ seen) raw
  ]

-- the entries before the names are told apart, and the routes
unfoldable pub catalogue_entries :
    List Object → List (Text × FalModelConfig) → Bool → List ModelEntry × List (Text × Text)
unfolding catalogue pair_variants list_entries
catalogue_entries raw models collapse_variants =
    let by_id = catalogue raw [] in
    let (routes, collapsed) = pair_variants by_id collapse_variants in
    (list_entries by_id models routes collapsed [] raw, routes)

abbrev has_text : Option Text → Bool
has_text none = false
has_text (some t) = not (is_empty t)

-- the listed ids that have a configured name
unfoldable pub pinned_ids : List (Text × FalModelConfig) → List ModelEntry → List Text
unfolding find
pinned_ids models [] = []
pinned_ids models (e ∷ es) =
    let rest = pinned_ids models es in
    if has_text (overridden (λ o. o.display_name) (find e.id models)) then e.id ∷ rest else rest

module _ (upper casefold : Text → Text) (is_alnum : ℕ → Bool) where
  unfoldable pub entries_from_catalog :
      List Object → List (Text × FalModelConfig) → Bool → List ModelEntry × List (Text × Text)
  unfolding catalogue_entries pinned_ids disambiguate_display_names
  entries_from_catalog raw models collapse_variants =
      let (entries, routes) = catalogue_entries raw models collapse_variants in
      (
        disambiguate_display_names upper casefold is_alnum entries (pinned_ids models entries),
        routes,
      )
