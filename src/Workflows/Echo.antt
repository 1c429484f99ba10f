-- ===== src/Workflows/Echo.antt =====
-- The whole of `prepare_workflow` against `effective_aspect_ratio`.
use openai_api_bridge.Prelude.{ℕ, ◌≡◌, refl, ap, ◌∙◌, inl, some, List, Text, codes}
use openai_api_bridge.Json.{null, text, object, Object, get}
use openai_api_bridge.Aspect.{AspectRatio}
use openai_api_bridge.Workflows.{
  WorkflowRecord, prepared, as_key, field, or_default, inject_prompt, inject_images,
}
use openai_api_bridge.Workflows.Seeds.{
  Request, prepare_workflow, choose, effective_aspect_ratio, value_or, randomize_seeds,
  inject_shape, inject_length,
}
use openai_api_bridge.Workflows.Writes.{Holds-bind, Holds-map, Holds-prepared, AnyError}
use openai_api_bridge.Workflows.Frame.{kept, inject_prompt-Kept}
use openai_api_bridge.Workflows.Outline.{place_images-Kept, randomize_seeds-Kept}
use openai_api_bridge.Workflows.Ratio.{
  input_at, input_of, IsElsewhere, inject_length-SameNode, inject_shape-reads,
}

-- The ratio that is reported is the one that is submitted. If the requested ratio is snapped to an
-- option of the workflow, the graph has an object as its `aspect_ratio_node`, the length is not
-- written to that node, and the preparation succeeds, then the graph that is submitted holds the
-- option's literal in the declared input of that node, and the response echoes that option's value.
pub reported_ratio_is_submitted :
    (dumps : List Text → Text) (randint : ℕ → ℕ → ℕ → ℕ) (distance : AspectRatio → AspectRatio → ℕ)
    (record_ : WorkflowRecord) (r : Request) (id key : Text) (o : AspectRatio)
    (graph n prepared_graph : Object)
    → get (codes "aspect_ratio_node") record_.meta ≡ some (text id)
    → as_key (field (codes "aspect_ratio_field") (codes "aspect_ratio") record_.meta) ≡ prepared key
    → choose distance record_.aspect_ratios r ≡ some o
    → get id graph ≡ some (object n)
    → IsElsewhere id (or_default null (get (codes "length_node") record_.meta))
    → prepare_workflow dumps randint distance record_ r graph ≡ prepared prepared_graph
    → (input_of id key prepared_graph ≡ some (text o.literal))
      × (effective_aspect_ratio distance record_ r.aspect_ratio ≡ some o.value')
unfolding prepare_workflow inject_images effective_aspect_ratio
reported_ratio_is_submitted dumps randint distance record_ r id key o graph n prepared_graph node
      input c e elsewhere h =
    (
      Holds-prepared AnyError _ (prepare_workflow dumps randint distance record_ r graph)
          prepared_graph
          (Holds-bind AnyError _ _ (inject_prompt r.prompt_text record_.meta graph) _
            (inject_prompt-Kept graph _ record_.meta graph (kept λ j. inl refl))
            λ w₁ h₁.
              Holds-bind AnyError _ _ (inject_images dumps record_.meta r.image_filenames w₁) _
                (place_images-Kept graph dumps _ r.image_filenames w₁ h₁)
                λ w₂ h₂.
                  Holds-bind AnyError _ _ (randomize_seeds randint record_.meta w₂) _
                    (randomize_seeds-Kept graph randint record_.meta w₂ h₂)
                    λ w₃ h₃.
                      Holds-bind AnyError _ _
                        (inject_shape dumps randint distance record_.meta r record_.aspect_ratios
                          w₃)
                        _
                        (inject_shape-reads dumps randint distance record_.meta r id key o node
                          input record_.aspect_ratios graph w₃ n c e h₃)
                        λ w₄ h₄.
                          Holds-map AnyError _ _ (inject_length record_.meta r.length w₄)
                            (λ w₅ s. ap (input_at key) s ∙ h₄)
                            (inject_length-SameNode id record_.meta r.length w₄ elsewhere))
          h,
      ap (λ c. value_or distance c record_.aspect_ratio_default) c,
    )
