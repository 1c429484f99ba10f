-- ===== src/Fal/Tests.antt =====
-- A model in two halves, and the theorem at it.
use openai_api_bridge.Prelude.{ℕ, ◌≡◌, refl, Bool, true, List, [], ◌∷◌, Text, codes, text_eq}
use openai_api_bridge.Json.{text, object, Object, empty, member, get}
use openai_api_bridge.Fal.{variant_candidates, endpoint_id, catalogue, entries_from_catalog}
use openai_api_bridge.Fal.Coverage.{has_item, IsReachable}
use openai_api_bridge.Fal.Entries.{entries_from_catalog-IsReachable}

candidates_listed :
    variant_candidates (codes "pro/text-to-image") (codes "text-to-image")
    ≡ codes "pro/edit"
      ∷ codes "pro/image-to-image"
      ∷ codes "pro/edit-image"
      ∷ codes "pro/text-to-image/edit"
      ∷ codes "pro/text-to-image/image-to-image"
      ∷ codes "pro/text-to-image/edit-image"
      ∷ []
unfolding variant_candidates text_eq
candidates_listed = refl

abbrev same : Text → Text
same t = t

abbrev every : ℕ → Bool
every c = true

abbrev item : Text → Text → Object
item id category =
    member (codes "endpoint_id") (text id)
      (member (codes "metadata") (object (member (codes "category") (text category) empty)) empty)

abbrev raw : List Object
raw =
    item (codes "banana/edit") (codes "image-to-image")
    ∷ item (codes "banana") (codes "text-to-image")
    ∷ []

banana_routed :
    (entries_from_catalog same same every raw [] true).1
    ≡ (codes "banana", codes "banana/edit") ∷ []
unfolding entries_from_catalog text_eq get
banana_routed = refl

edit_is_there : has_item (codes "banana/edit") raw ≡ true
unfolding has_item endpoint_id text_eq get
edit_is_there = refl

entries_from_catalog-IsReachable_example :
    IsReachable
      (catalogue raw [])
      (codes "banana/edit")
      (entries_from_catalog same same every raw [] true)
entries_from_catalog-IsReachable_example =
    entries_from_catalog-IsReachable same same every raw [] true (codes "banana/edit") edit_is_there
