-- ===== src/Workflows/Tests.antt =====
-- A workflow with an image input and a menu of ratios, and the theorems at it.
use openai_api_bridge.Prelude.{
  ℕ, ◌+◌, ◌-◌, ◌*◌, ◌≡◌, refl, Bool, true, false, Option, none, some, List, [], ◌∷◌, ◌++◌, Text,
  codes, text_eq, strip, is_space, take_digits, value, show,
}
use openai_api_bridge.Prelude.Texts.{lstrip}
use openai_api_bridge.Json.{
  Json, integer, text, array, object, nil, cons, Object, empty, member, get, set, truthy,
}
use openai_api_bridge.Aspect.{AspectRatio, snap_aspect_ratio}
use openai_api_bridge.Aspect.Spelling.{bare}
use openai_api_bridge.Ids.{slugify, separated, filtered, collapsed, left_trimmed, right_trimmed}
use openai_api_bridge.Workflows.{
  image, WorkflowRecord, unsupported_operation, prepared, refused, inject_images,
}
use openai_api_bridge.Workflows.Seeds.{Request, prepare_workflow, choose, effective_aspect_ratio}
use openai_api_bridge.Workflows.Scan.{resolve_aspect_ratios, scan_workflows}
use openai_api_bridge.Workflows.Images.{IsJudged, surplus_is_an_error}
use openai_api_bridge.Workflows.Placement.{assigned}
use openai_api_bridge.Workflows.Readiness.{AreReady}
use openai_api_bridge.Workflows.Frame.{Kept}
use openai_api_bridge.Workflows.Outline.{prepare_workflow-Kept}
use openai_api_bridge.Workflows.Ratio.{input_of}
use openai_api_bridge.Workflows.Echo.{reported_ratio_is_submitted}
use openai_api_bridge.Workflows.Declared.{AreDeclared, resolve_aspect_ratios-AreDeclared}
use openai_api_bridge.Workflows.Slugs.{IsCatalogue, scan_workflows-IsCatalogue}

abbrev node : Text → Json → Json
node f v = object (member (codes "inputs") (object (member f v empty)) empty)

abbrev graph_with : Text → Text → Text → ℕ → Object
graph_with prompt file ratio seed = member (codes "6") (node (codes "text") (text prompt)) (
    member (codes "10") (node (codes "image") (text file)) (
      member (codes "9") (node (codes "aspect_ratio") (text ratio))
        (member (codes "3") (node (codes "seed") (integer false seed)) empty)))

abbrev graph : Object
graph = graph_with (codes "old") [] (codes "1:1") 7

abbrev spec : Json
spec = object (
    member (codes "node") (text (codes "10")) (member (codes "field") (text (codes "image")) empty))

abbrev meta : Object
meta = member (codes "positive_prompt_node") (text (codes "6")) (
    member (codes "image_inputs") (array (cons spec nil)) (
      member (codes "aspect_ratio_node") (text (codes "9")) (
        member (codes "aspect_ratios")
          (array (cons (text (codes "1:1")) (cons (text (codes "16:9")) nil))) empty)))

abbrev ratios : List AspectRatio
ratios = bare 1 1 ∷ bare 16 9 ∷ []

abbrev workflow : WorkflowRecord
workflow = record {
  slug = codes "flux";
  json_path = codes "flux.json";
  meta = meta;
  output_type = image;
  display_name = text (codes "Flux");
  aspect_ratios = ratios;
  aspect_ratio_default = some (codes "1:1");
}

abbrev request : Request
request = record {
  prompt_text = codes "a cat";
  image_filenames = codes "a.png" ∷ [];
  width = none;
  height = none;
  aspect_ratio = some (codes "16:9");
  length = none;
}

abbrev first_text : List Text → Text
first_text [] = []
first_text (t ∷ ts) = t

abbrev draw : ℕ → ℕ → ℕ → ℕ
draw k lo hi = 42 + k

abbrev crossed : AspectRatio → AspectRatio → ℕ
crossed o w = (o.width * w.height - w.width * o.height) + (w.width * o.height - o.width * w.height)

abbrev submitted : Object
submitted = graph_with (codes "a cat") (codes "a.png") (codes "16:9") 42

widescreen_chosen : choose crossed ratios request ≡ some (bare 16 9)
unfolding snap_aspect_ratio strip lstrip is_space take_digits value show text_eq
widescreen_chosen = refl

workflow_prepared :
    prepare_workflow first_text draw crossed workflow request graph ≡ prepared submitted
unfolding prepare_workflow snap_aspect_ratio strip lstrip is_space take_digits value show text_eq
    get set truthy
workflow_prepared = refl

prepare_workflow-Kept_example : Kept graph submitted
prepare_workflow-Kept_example =
    prepare_workflow-Kept first_text draw crossed workflow request graph submitted workflow_prepared

node_declared : get (codes "aspect_ratio_node") meta ≡ some (text (codes "9"))
unfolding get text_eq
node_declared = refl

field_declared : get (codes "aspect_ratio_field") meta ≡ none
unfolding get text_eq
field_declared = refl

reported_ratio_is_submitted_example :
    (input_of (codes "9") (codes "aspect_ratio") submitted ≡ some (text (bare 16 9).literal))
    × (effective_aspect_ratio crossed workflow (some (codes "16:9")) ≡ some (bare 16 9).value')
unfolding get text_eq
reported_ratio_is_submitted_example =
    reported_ratio_is_submitted first_text draw crossed workflow request (codes "9")
      (codes "aspect_ratio") (bare 16 9) graph
      (member (codes "inputs") (object (member (codes "aspect_ratio") (text (codes "1:1")) empty))
        empty)
      submitted refl refl widescreen_chosen refl tt workflow_prepared

images_declared : get (codes "image_inputs") meta ≡ some (array (cons spec nil))
unfolding get text_eq
images_declared = refl

surplus_is_an_error_example :
    IsJudged first_text graph
      (cons spec nil)
      (codes "a.png" ∷ [])
      (codes "10")
      (codes "image")
      (inject_images first_text meta (codes "a.png" ∷ []) graph)
surplus_is_an_error_example =
    surplus_is_an_error first_text meta spec nil (codes "a.png") [] graph (codes "10")
      (codes "image") images_declared

entry-AreReady : AreReady graph (cons spec nil)
unfolding get text_eq truthy
entry-AreReady = ((refl, tt), tt)

one_image_assigned :
    assigned first_text graph (cons spec nil) (codes "a.png" ∷ [])
    ≡ some (codes "10", text (codes "image"), text (codes "a.png")) ∷ []
unfolding assigned get text_eq truthy
one_image_assigned = refl

two_images_refused :
    inject_images first_text meta (codes "a.png" ∷ codes "b.png" ∷ []) graph
    ≡ refused (unsupported_operation 1 2)
unfolding inject_images get set text_eq truthy
two_images_refused = refl

ratios_resolved :
    resolve_aspect_ratios meta (some graph) ≡ prepared (ratios, some (show 1 ++ b':' ∷ show 1))
unfolding resolve_aspect_ratios strip lstrip is_space take_digits value show text_eq get
ratios_resolved = refl

resolve_aspect_ratios-AreDeclared_example :
    AreDeclared meta (some graph) (ratios, some (show 1 ++ b':' ∷ show 1))
resolve_aspect_ratios-AreDeclared_example =
    resolve_aspect_ratios-AreDeclared meta (some graph) (ratios, some (show 1 ++ b':' ∷ show 1))
      ratios_resolved

abbrev names : List Text
names = codes "a b.json" ∷ codes "a b.meta.json" ∷ codes "a-b.json" ∷ []

abbrev everything : Text → Bool
everything t = true

abbrev sparse : Object
sparse =
    member (codes "positive_prompt_node") (integer false 6)
      (member (codes "output_type") (text (codes "image")) empty)

abbrev load : Text → Option Json
load t = some (object sparse)

abbrev same : Text → Text
same t = t

abbrev only : WorkflowRecord
only = record {
  slug = codes "a-b";
  json_path = codes "a b.json";
  meta =
      member (codes "positive_prompt_node") (text (codes "6"))
        (member (codes "output_type") (text (codes "image")) empty);
  output_type = image;
  display_name = text (codes "a b");
  aspect_ratios = [];
  aspect_ratio_default = none;
}

one_found : scan_workflows everything load same names [] ≡ prepared ((codes "a-b", only) ∷ [])
unfolding scan_workflows slugify separated filtered collapsed left_trimmed right_trimmed strip
    lstrip is_space show text_eq get set truthy
one_found = refl

scan_workflows-IsCatalogue_example : IsCatalogue ((codes "a-b", only) ∷ [])
scan_workflows-IsCatalogue_example =
    scan_workflows-IsCatalogue everything load same names ((codes "a-b", only) ∷ []) one_found
