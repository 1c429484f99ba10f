-- ===== src/Labels/Tests.antt =====
-- Two endpoints of one family, and the theorem at them.
use openai_api_bridge.Prelude.{ℕ, ◌≡◌, refl, Bool, true, none, some, [], ◌∷◌, Text, codes, text_eq}
use openai_api_bridge.Models.{ModelEntry, image}
use openai_api_bridge.Labels.{prettify, disambiguate_display_names}
use openai_api_bridge.Labels.Renaming.{AreRenamed, disambiguate_display_names-AreRenamed}

abbrev same : Text → Text
same t = t

abbrev every : ℕ → Bool
every c = true

task_prettified : prettify same (codes "ocr/text-to-image") ≡ codes "OCR text-to-image"
unfolding prettify text_eq
task_prettified = refl

abbrev endpoint : Text → ModelEntry
endpoint id = record {
  id = id;
  display_name = some (codes "Florence");
  kind = some image;
  supports_tools = none;
  context_window = none;
  capabilities = none;
  prompt_style = none;
  prompt_hint = none;
  aspect_ratios = none;
  aspect_ratio_default = none;
}

disambiguate_display_names-AreRenamed_example :
    AreRenamed
      (codes "florence/ocr" ∷ [])
      (endpoint (codes "florence/ocr") ∷ endpoint (codes "florence/sam") ∷ [])
      (disambiguate_display_names same same every
        (endpoint (codes "florence/ocr") ∷ endpoint (codes "florence/sam") ∷ [])
        (codes "florence/ocr" ∷ []))
disambiguate_display_names-AreRenamed_example =
    disambiguate_display_names-AreRenamed (codes "florence/ocr" ∷ []) same same every
      (endpoint (codes "florence/ocr") ∷ endpoint (codes "florence/sam") ∷ [])

one_renamed :
    disambiguate_display_names same same every
      (endpoint (codes "florence/ocr") ∷ endpoint (codes "florence/sam") ∷ [])
      (codes "florence/ocr" ∷ [])
    ≡ endpoint (codes "florence/ocr")
      ∷ record (endpoint (codes "florence/sam")) { display_name = some (codes "Florence (SAM)") }
      ∷ []
unfolding disambiguate_display_names prettify text_eq
one_renamed = refl
