-- ===== src/Models/Tests.antt =====
-- Two providers and their listing, and the theorems at them.
use openai_api_bridge.Prelude.{
  ◌≡◌, ◌↔◌, refl, Bool, true, false, none, some, List, [], ◌∷◌, Text, codes, text_eq, contains,
}
use openai_api_bridge.Errors.{timeout_error, returned, raised}
use openai_api_bridge.Models.{
  parse_model_id, enforce_unique_ids, register_all, row, ModelEntry, image, Fetch, list_models,
}
use openai_api_bridge.Models.Ids.{AreParts, parse_model_id_exact}
use openai_api_bridge.Models.Routing.{All, IsProviderId, IsRoutable, HasIds, list_models-IsRoutable}

parse_model_id_exact_example :
    (parse_model_id (codes "fal/fal-ai/flux") ≡ some (codes "fal", codes "fal-ai/flux"))
    ↔ AreParts (codes "fal/fal-ai/flux") (codes "fal", codes "fal-ai/flux")
parse_model_id_exact_example =
    parse_model_id_exact (codes "fal/fal-ai/flux") (codes "fal", codes "fal-ai/flux")

abbrev providers : List (Text × Bool)
providers = (codes "fal", true) ∷ (codes "down", false) ∷ []

abbrev same : Bool → Bool
same b = b

abbrev flux : ModelEntry
flux = record {
  id = codes "fal-ai/flux";
  display_name = some (codes "Flux");
  kind = some image;
  supports_tools = none;
  context_window = none;
  capabilities = some (codes "text-to-image" ∷ []);
  prompt_style = none;
  prompt_hint = none;
  aspect_ratios = none;
  aspect_ratio_default = none;
}

-- an entry as a backend lists it that knows no kind
abbrev unnamed : ModelEntry
unnamed = record flux { id = codes "flux-2"; display_name = none; kind = none; capabilities = none }

abbrev catalogue : Bool → Fetch
catalogue true = record { outcome = returned (flux ∷ unnamed ∷ []); in_time = true }
catalogue false = record { outcome = raised timeout_error; in_time = true }

fal-IsProviderId : IsProviderId (codes "fal")
unfolding contains
fal-IsProviderId = record { no_slash = refl; something = refl }

down-IsProviderId : IsProviderId (codes "down")
unfolding contains
down-IsProviderId = record { no_slash = refl; something = refl }

catalogue-HasIds : (b : Bool) → HasIds (catalogue b).outcome
catalogue-HasIds true = (refl, (refl, tt))
catalogue-HasIds false = tt

no_duplicate : enforce_unique_ids [] providers ≡ none
unfolding enforce_unique_ids text_eq
no_duplicate = refl

one_listed :
    list_models catalogue 5 1700000000 (register_all same [] providers)
    ≡ returned (row 1700000000 (codes "fal") flux ∷ row 1700000000 (codes "fal") unnamed ∷ [])
unfolding list_models register_all text_eq
one_listed = refl

list_models-IsRoutable_example :
    All
      (IsRoutable (register_all same [] providers))
      (row 1700000000 (codes "fal") flux ∷ row 1700000000 (codes "fal") unnamed ∷ [])
list_models-IsRoutable_example =
    list_models-IsRoutable catalogue 5 1700000000 catalogue-HasIds same providers
      (row 1700000000 (codes "fal") flux ∷ row 1700000000 (codes "fal") unnamed ∷ [])
      (fal-IsProviderId, (down-IsProviderId, tt)) one_listed
