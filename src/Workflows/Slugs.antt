-- ===== src/Workflows/Slugs.antt =====
-- The ids of the workflows that a scan finds.
use openai_api_bridge.Prelude.{
  ◌≡◌, refl, ◌∙◌, ◌||◌, Bool, false, Option, none, some, List, [], ◌∷◌, ◌++◌, Text, codes, text_eq,
  text_eq_sym, before_suffix, on_test, arith,
}
use openai_api_bridge.Json.{
  Json, null, boolean, integer, float, text, array, object, Object, get, has,
}
use openai_api_bridge.Ids.{slugify}
use openai_api_bridge.Ids.Slugs.{IsSlug, slugify-IsSlug}
use openai_api_bridge.Workflows.{AssetKind, WorkflowRecord, Prepared, prepared, or_default}
use openai_api_bridge.Workflows.Scan.{
  Ratios, is_empty, ends_with, is_kind, as_object, has_slug, base_of, normalize_node_ids,
  output_type_of, resolve_aspect_ratios, add_record, resolved, autodetected, with_meta, loaded,
  scan_file, scan_workflows,
}
use openai_api_bridge.Workflows.Writes.{Holds, Holds-bind, Holds-prepared, after, AnyError}

-- each slug is one of `slugify`, is not empty, is that of its record, and is there once
abbrev pub IsCatalogue : List (Text × WorkflowRecord) → Type 0
IsCatalogue [] = Unit
IsCatalogue ((s, r) ∷ out) =
    IsSlug s × (is_empty s ≡ false) × (r.slug ≡ s) × (has_slug s out ≡ false) × IsCatalogue out

has_slug-snoc :
    (s t : Text) (r : WorkflowRecord) (out : List (Text × WorkflowRecord))
    → has_slug s out ≡ false
    → text_eq t s ≡ false
    → has_slug s (out ++ (t, r) ∷ []) ≡ false
unfolding has_slug
has_slug-snoc s t r [] h e = ground (arith, e)
has_slug-snoc s t r ((u, q) ∷ out) h e =
    ground (arith, h, has_slug-snoc s t r out (ground (arith, h)) e)

unlisted-head :
    (s t : Text) (r : WorkflowRecord) (out : List (Text × WorkflowRecord))
    → has_slug t ((s, r) ∷ out) ≡ false
    → (text_eq s t ≡ false) × (has_slug t out ≡ false)
unfolding has_slug
unlisted-head s t r out h = (ground (arith, h), ground (arith, h))

IsCatalogue-snoc :
    (t : Text) (r : WorkflowRecord) (out : List (Text × WorkflowRecord))
    → IsSlug t
    → is_empty t ≡ false
    → r.slug ≡ t
    → has_slug t out ≡ false
    → IsCatalogue out
    → IsCatalogue (out ++ (t, r) ∷ [])
unfolding has_slug
IsCatalogue-snoc t r [] s e q h c = (s, e, q, refl, tt)
IsCatalogue-snoc t r ((u, q) ∷ out) s e k h (s', e', k', h', c) =
    let (ne, h'') = unlisted-head u t q out h in
    (
      s',
      e',
      k',
      has_slug-snoc u t r out h' (text_eq_sym t u ∙ ne),
      IsCatalogue-snoc t r out s e k h'' c,
    )

or_false : (a b : Bool) → (a || b) ≡ false → (a ≡ false) × (b ≡ false)
or_false a b h = (ground (arith, h), ground (arith, h))

module _ (exists : Text → Bool) (load : Text → Option Json) (lower : Text → Text) where
  abbrev Catalogues : Prepared (List (Text × WorkflowRecord)) → Type 0
  Catalogues m = Holds AnyError IsCatalogue m

  add_record-IsCatalogue :
      (name : Text) (meta : Object) (kind : AssetKind) (ratios : Ratios)
      (out : List (Text × WorkflowRecord))
      → IsCatalogue out
      → IsCatalogue (add_record exists load lower name meta kind ratios out)
  add_record-IsCatalogue name meta kind (rs, d) out c =
      let slug = slugify lower (base_of name) in
      on_test IsCatalogue (is_empty slug || has_slug slug out) (λ _. c)
        (λ h.
          let (e, f) = or_false (is_empty slug) (has_slug slug out) h in
          IsCatalogue-snoc slug _ out (slugify-IsSlug lower (base_of name)) e refl f c)

  resolved-Catalogue :
      (name : Text) (meta : Object) (graph : Option Object) (out : List (Text × WorkflowRecord))
      (kind : AssetKind)
      → IsCatalogue out
      → Catalogues (resolved exists load lower name meta graph out kind)
  resolved-Catalogue name meta graph out kind c =
      after IsCatalogue (resolve_aspect_ratios meta graph) _
        λ ratios. add_record-IsCatalogue name meta kind ratios out c

  autodetected-Catalogue :
      (name : Text) (meta : Object) (graph : Option Object) (out : List (Text × WorkflowRecord))
      → IsCatalogue out
      → Catalogues (autodetected exists load lower name meta graph out)
  autodetected-Catalogue name meta none out c = c
  autodetected-Catalogue name meta (some graph) out c =
      after IsCatalogue (output_type_of graph) _
        λ kind. resolved-Catalogue name meta (some graph) out kind c

  with_meta-Catalogue :
      (name : Text) (meta : Object) (out : List (Text × WorkflowRecord))
      → IsCatalogue out
      → Catalogues (with_meta exists load lower name meta out)
  with_meta-Catalogue name meta out c =
      let declared = or_default null (get (codes "output_type") meta) in
      on_test Catalogues (is_kind (codes "image") declared || is_kind (codes "video") declared)
        (λ _. resolved-Catalogue name meta _ out _ c)
        (λ _. autodetected-Catalogue name meta (as_object (load name)) out c)

  loaded-Catalogue :
      (name : Text) (j : Option Json) (out : List (Text × WorkflowRecord))
      → IsCatalogue out
      → Catalogues (loaded exists load lower name j out)
  loaded-Catalogue name (some (object meta)) out c =
      on_test Catalogues (has (codes "positive_prompt_node") meta)
        (λ _. with_meta-Catalogue name (normalize_node_ids meta) out c) (λ _. c)
  loaded-Catalogue name none out c = c
  loaded-Catalogue name (some null) out c = c
  loaded-Catalogue name (some (boolean b)) out c = c
  loaded-Catalogue name (some (integer b n)) out c = c
  loaded-Catalogue name (some (float b t)) out c = c
  loaded-Catalogue name (some (text t)) out c = c
  loaded-Catalogue name (some (array xs)) out c = c

  scan_file-Catalogue :
      (name : Text) (out : List (Text × WorkflowRecord))
      → IsCatalogue out
      → Catalogues (scan_file exists load lower name out)
  scan_file-Catalogue name out c =
      on_test Catalogues (ends_with (before_suffix (codes ".meta.json") name)) (λ _. c)
        (λ _.
          on_test Catalogues (exists (base_of name ++ codes ".meta.json"))
            (λ _. loaded-Catalogue name (load (base_of name ++ codes ".meta.json")) out c) (λ _. c))

  scan-Catalogue :
      (names : List Text) (out : List (Text × WorkflowRecord))
      → IsCatalogue out
      → Catalogues (scan_workflows exists load lower names out)
  unfolding scan_workflows
  scan-Catalogue [] out c = c
  scan-Catalogue (name ∷ names) out c =
      Holds-bind AnyError IsCatalogue IsCatalogue (scan_file exists load lower name out) _
        (scan_file-Catalogue name out c) (scan-Catalogue names)

  -- Every workflow that a scan finds stands under its own slug, which is not empty, consists of the
  -- letters a-z, the digits and single hyphens between them, and is no other workflow's.
  pub scan_workflows-IsCatalogue :
      (names : List Text) (found : List (Text × WorkflowRecord))
      → scan_workflows exists load lower names [] ≡ prepared found
      → IsCatalogue found
  scan_workflows-IsCatalogue names found =
      Holds-prepared AnyError IsCatalogue (scan_workflows exists load lower names []) found
        (scan-Catalogue names [] tt)
