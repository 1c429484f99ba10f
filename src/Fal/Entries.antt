-- ===== src/Fal/Entries.antt =====
-- Every model of the catalogue can be had from the listing.
use openai_api_bridge.Prelude.{
  ℕ, ◌≡◌, refl, ap, ◌∙◌, inl, inr, ◌||◌, Bool, true, List, [], ◌∷◌, Text, text_eq,
}
use openai_api_bridge.Json.{Object}
use openai_api_bridge.Models.{ModelEntry}
use openai_api_bridge.Labels.{disambiguate_display_names}
use openai_api_bridge.Labels.Renaming.{IsRenamed, AreRenamed, disambiguate_display_names-AreRenamed}
use openai_api_bridge.Fal.{
  Catalogue, catalogue, FalModelConfig, catalogue_entries, pinned_ids, entries_from_catalog,
}
use openai_api_bridge.Fal.Coverage.{has_item, is_listed, IsReachable, catalogue_entries-IsReachable}

same_id : (pinned : List Text) (e f : ModelEntry) → IsRenamed pinned e f → f.id ≡ e.id
same_id pinned e f (inl p) = ap (λ (g : ModelEntry). g.id) p
same_id pinned e f (inr (name, u, p)) = ap (λ (g : ModelEntry). g.id) p

is_listed-AreRenamed :
    (pinned : List Text) (id : Text) (es fs : List ModelEntry)
    → AreRenamed pinned es fs
    → is_listed id fs ≡ is_listed id es
unfolding is_listed
is_listed-AreRenamed pinned id [] [] h = refl
is_listed-AreRenamed pinned id [] (f ∷ fs) h = absurd h
is_listed-AreRenamed pinned id (e ∷ es) [] h = absurd h
is_listed-AreRenamed pinned id (e ∷ es) (f ∷ fs) (h, hs) =
    ap (λ t. text_eq t id || is_listed id fs) (same_id pinned e f h)
    ∙ ap (λ b. text_eq e.id id || b) (is_listed-AreRenamed pinned id es fs hs)

AreRenamed-IsReachable :
    (by_id : Catalogue) (pinned : List Text) (id : Text) (es fs : List ModelEntry)
    (routes : List (Text × Text))
    → AreRenamed pinned es fs
    → IsReachable by_id id (es, routes)
    → IsReachable by_id id (fs, routes)
AreRenamed-IsReachable by_id pinned id es fs routes r (inl h) =
    inl (is_listed-AreRenamed pinned id es fs r ∙ h)
AreRenamed-IsReachable by_id pinned id es fs routes r (inr (m, h, f, p)) =
    inr (m, is_listed-AreRenamed pinned m es fs r ∙ h, f, p)

-- No model of the catalogue is lost to the pairing. An id that some item of the catalogue has is
-- listed, or a listed model is routed to it, and then the catalogue has the two under the
-- text-driven and the image-driven category for images, or those for videos.
pub entries_from_catalog-IsReachable :
    (upper casefold : Text → Text) (is_alnum : ℕ → Bool) (raw : List Object)
    (models : List (Text × FalModelConfig)) (collapse_variants : Bool) (id : Text)
    → has_item id raw ≡ true
    → IsReachable
        (catalogue raw [])
        id
        (entries_from_catalog upper casefold is_alnum raw models collapse_variants)
unfolding entries_from_catalog catalogue_entries
entries_from_catalog-IsReachable upper casefold is_alnum raw models collapse_variants id h =
    AreRenamed-IsReachable (catalogue raw []) (pinned_ids models entries) id entries
      (disambiguate_display_names upper casefold is_alnum entries (pinned_ids models entries)) _
      (disambiguate_display_names-AreRenamed (pinned_ids models entries) upper casefold is_alnum
        entries)
      (catalogue_entries-IsReachable raw models collapse_variants id h)
  where
    entries : List ModelEntry
    entries = (catalogue_entries raw models collapse_variants).0
