-- ===== src/Ids/Tests.antt =====
-- The examples of the documentation, and the theorem at one of them.
use openai_api_bridge.Prelude.{◌≡◌, refl, Text, codes, strip, is_space}
use openai_api_bridge.Prelude.Texts.{lstrip}
use openai_api_bridge.Ids.{slugify}
use openai_api_bridge.Ids.Slugs.{IsSlug, slugify-IsSlug}

abbrev same : Text → Text
same t = t

ltx : slugify same (codes "ltx-v t2v (fast)") ≡ codes "ltx-v-t2v-fast"
unfolding slugify strip lstrip is_space
ltx = refl

klein : slugify same (codes "flux.2 klein") ≡ codes "flux-2-klein"
unfolding slugify strip lstrip is_space
klein = refl

slugify-IsSlug_example : IsSlug (slugify same (codes "-- flux.2: klein --"))
slugify-IsSlug_example = slugify-IsSlug same (codes "-- flux.2: klein --")
