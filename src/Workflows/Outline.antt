-- ===== src/Workflows/Outline.antt =====
-- What the whole of `prepare_workflow` leaves alone in the graph.
use openai_api_bridge.Prelude.{
  ℕ, zero, suc, ◌≡◌, refl, inl, true, false, Option, none, some, List, [], ◌∷◌, ◌||◌, Text, codes,
  on_test,
}
use openai_api_bridge.Json.{
  Json, null, boolean, integer, float, text, array, object, nil, cons, Object, get, truthy,
}
use openai_api_bridge.Aspect.{AspectRatio}
use openai_api_bridge.Workflows.{
  WorkflowRecord, Prepared, prepared, field, or_default, given_node, inject_prompt, inject_images,
  place_each, no_surplus, place_images,
}
use openai_api_bridge.Workflows.Seeds.{
  Request, prepare_workflow, randomize_seeds, seed_each, seed_node, seed_in, inject_ratio,
  inject_dimensions, inject_length, inject_shape, nodes_to_seed, seed_fields, with_inputs,
  write_positive, write_ratio, str, holds_text, occurs_in,
}
use openai_api_bridge.Workflows.Writes.{Holds, Holds-bind, Holds-prepared, after, AnyError}
use openai_api_bridge.Workflows.Frame.{
  Kept, kept, Keeps, Kept-inputs, write_input-Kept, inject_prompt-Kept, place_each-Kept,
}

module _ (u : Object) where
  surplus-Kept :
      (supplied : ℕ) (st : Object × List Text) → Kept u (st.0) → Keeps u (no_surplus supplied st)
  surplus-Kept supplied (w, []) h = h
  surplus-Kept supplied (w, file ∷ files) h = tt

  pub place_images-Kept :
      (dumps : List Text → Text) (specs : Json) (files : List Text) (w : Object)
      → Kept u w
      → Keeps u (place_images dumps specs files w)
  place_images-Kept dumps specs [] w h = h
  place_images-Kept dumps (array (cons s ss)) (file ∷ files) w h =
      Holds-bind AnyError (λ st. Kept u (st.0)) (Kept u)
        (place_each dumps (cons s ss) (w, file ∷ files)) _
        (place_each-Kept u dumps (cons s ss) w (file ∷ files) h) (surplus-Kept _)
  place_images-Kept dumps (array nil) (file ∷ files) w h =
      on_test (Keeps u) (truthy (array nil)) (λ _. tt) (λ _. h)
  place_images-Kept dumps null (file ∷ files) w h =
      on_test (Keeps u) (truthy null) (λ _. tt) (λ _. h)
  place_images-Kept dumps (boolean b) (file ∷ files) w h =
      on_test (Keeps u) (truthy (boolean b)) (λ _. tt) (λ _. h)
  place_images-Kept dumps (integer b n) (file ∷ files) w h =
      on_test (Keeps u) (truthy (integer b n)) (λ _. tt) (λ _. h)
  place_images-Kept dumps (float b t) (file ∷ files) w h =
      on_test (Keeps u) (truthy (float b t)) (λ _. tt) (λ _. h)
  place_images-Kept dumps (text t) (file ∷ files) w h =
      on_test (Keeps u) (truthy (text t)) (λ _. tt) (λ _. h)
  place_images-Kept dumps (object o) (file ∷ files) w h =
      on_test (Keeps u) (truthy (object o)) (λ _. tt) (λ _. h)

  module _ (randint : ℕ → ℕ → ℕ → ℕ) where
    abbrev KeepsState : Prepared (Object × ℕ) → Type 0
    KeepsState m = Holds AnyError (λ st. Kept u (st.0)) m

    seed_in-Kept :
        (id : Text) (n : Object) (i : Option Json) (w : Object) (k : ℕ)
        → get id w ≡ some (object n)
        → Kept u w
        → KeepsState (seed_in randint id n i (w, k))
    seed_in-Kept id n none w k e h = h
    seed_in-Kept id n (some (object inputs)) w k e h = stored (seed_fields randint (inputs, k))
      where
        stored : (st : Object × ℕ) → Kept u ((with_inputs randint id n w st).0)
        stored (i, k') = Kept-inputs u w id n i e h
    seed_in-Kept id n (some (array items)) w k e h =
        on_test KeepsState
          (holds_text (codes "seed") items || holds_text (codes "noise_seed") items) (λ _. tt)
          (λ _. h)
    seed_in-Kept id n (some (text t)) w k e h =
        on_test KeepsState (occurs_in (codes "seed") t) (λ _. tt) (λ _. h)
    seed_in-Kept id n (some null) w k e h = tt
    seed_in-Kept id n (some (boolean b)) w k e h = tt
    seed_in-Kept id n (some (integer b m)) w k e h = tt
    seed_in-Kept id n (some (float b t)) w k e h = tt

    seed_node-Kept :
        (id : Text) (o : Option Json) (w : Object) (k : ℕ)
        → get id w ≡ o
        → Kept u w
        → KeepsState (seed_node randint id o (w, k))
    seed_node-Kept id (some (object n)) w k e h = seed_in-Kept id n _ w k e h
    seed_node-Kept id none w k e h = h
    seed_node-Kept id (some null) w k e h = h
    seed_node-Kept id (some (boolean b)) w k e h = h
    seed_node-Kept id (some (integer b n)) w k e h = h
    seed_node-Kept id (some (float b t)) w k e h = h
    seed_node-Kept id (some (text t)) w k e h = h
    seed_node-Kept id (some (array xs)) w k e h = h

    seed_each-Kept :
        (ids : List Text) (w : Object) (k : ℕ) → Kept u w → Keeps u (seed_each randint ids (w, k))
    unfolding seed_each
    seed_each-Kept [] w k h = h
    seed_each-Kept (id ∷ ids) w k h =
        Holds-bind AnyError (λ st. Kept u (st.0)) (Kept u) (seed_node randint id (get id w) (w, k))
          _ (seed_node-Kept id (get id w) w k refl h) (λ (w', k') h'. seed_each-Kept ids w' k' h')

    pub randomize_seeds-Kept :
        (meta w : Object) → Kept u w → Keeps u (randomize_seeds randint meta w)
    unfolding randomize_seeds
    randomize_seeds-Kept meta w h =
        after (Kept u) (nodes_to_seed (or_default null (get (codes "seed_nodes") meta)) w) _
          λ ids. seed_each-Kept ids w 0 h

  write_positive-Kept :
      (f : Json) (n : Option ℕ) (id : Option Text) (w : Object)
      → Kept u w
      → Keeps u (write_positive f n id w)
  write_positive-Kept f none id w h = h
  write_positive-Kept f (some zero) id w h = h
  write_positive-Kept f (some (suc n)) none w h = h
  write_positive-Kept f (some (suc n)) (some id) w h = write_input-Kept u false id f _ w h

  write_ratio-Kept :
      (meta : Object) (c : Option AspectRatio) (w : Object) (id : Text) (o : Option Json)
      → Kept u w
      → Keeps u (write_ratio meta c w id o)
  write_ratio-Kept meta none w id o h = h
  write_ratio-Kept meta (some c) w id (some (object n)) h = write_input-Kept u true id _ _ w h
  write_ratio-Kept meta (some c) w id none h = h
  write_ratio-Kept meta (some c) w id (some null) h = h
  write_ratio-Kept meta (some c) w id (some (boolean b)) h = h
  write_ratio-Kept meta (some c) w id (some (integer b n)) h = h
  write_ratio-Kept meta (some c) w id (some (float b t)) h = h
  write_ratio-Kept meta (some c) w id (some (text t)) h = h
  write_ratio-Kept meta (some c) w id (some (array xs)) h = h

  inject_dimensions-Kept :
      (meta : Object) (width height : Option ℕ) (w : Object)
      → Kept u w
      → Keeps u (inject_dimensions meta width height w)
  unfolding inject_dimensions
  inject_dimensions-Kept meta width height w h =
      after (Kept u) (given_node (or_default null (get (codes "dimensions_node") meta)) w) _ λ id.
        Holds-bind AnyError (Kept u) (Kept u)
          (write_positive (field (codes "width_field") (codes "width") meta) width id w) _
          (write_positive-Kept _ width id w h) (λ w' k. write_positive-Kept _ height id w' k)

  inject_length-Kept :
      (meta : Object) (length : Option ℕ) (w : Object)
      → Kept u w
      → Keeps u (inject_length meta length w)
  unfolding inject_length
  inject_length-Kept meta length w h =
      after (Kept u) (given_node (or_default null (get (codes "length_node") meta)) w) _
        λ id. write_positive-Kept _ length id w h

module _ (dumps : List Text → Text) (randint : ℕ → ℕ → ℕ → ℕ)
    (distance : AspectRatio → AspectRatio → ℕ) where
  inject_shape-Kept :
      (u meta : Object) (r : Request) (ratios : List AspectRatio) (w : Object)
      → Kept u w
      → Keeps u (inject_shape dumps randint distance meta r ratios w)
  unfolding inject_ratio
  inject_shape-Kept u meta r [] w h = inject_dimensions-Kept u meta _ _ w h
  inject_shape-Kept u meta r (o ∷ os) w h =
      after (Kept u) (str (get (codes "aspect_ratio_node") meta)) _
        λ id. write_ratio-Kept u meta _ w id (get id w) h

  -- A preparation that succeeds neither adds nor removes a node of the graph: at every id the graph
  -- that is submitted holds what the given graph held, or both hold an object there and the two
  -- differ in their `inputs` only.
  pub prepare_workflow-Kept :
      (record_ : WorkflowRecord) (r : Request) (graph prepared_graph : Object)
      → prepare_workflow dumps randint distance record_ r graph ≡ prepared prepared_graph
      → Kept graph prepared_graph
  unfolding prepare_workflow inject_images
  prepare_workflow-Kept record_ r graph prepared_graph =
      Holds-prepared AnyError (Kept graph) (prepare_workflow dumps randint distance record_ r graph)
        prepared_graph
        (Holds-bind AnyError _ _ (inject_prompt r.prompt_text record_.meta graph) _
          (inject_prompt-Kept graph _ record_.meta graph (kept λ j. inl refl))
          λ w₁ h₁.
            Holds-bind AnyError _ _ (inject_images dumps record_.meta r.image_filenames w₁) _
              (place_images-Kept graph dumps _ r.image_filenames w₁ h₁)
              λ w₂ h₂.
                Holds-bind AnyError _ _ (randomize_seeds randint record_.meta w₂) _
                  (randomize_seeds-Kept graph randint record_.meta w₂ h₂)
                  λ w₃ h₃.
                    Holds-bind AnyError _ _
                      (inject_shape dumps randint distance record_.meta r record_.aspect_ratios w₃)
                      _ (inject_shape-Kept graph record_.meta r record_.aspect_ratios w₃ h₃)
                      λ w₄ h₄. inject_length-Kept graph record_.meta r.length w₄ h₄)
