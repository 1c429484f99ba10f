-- ===== src/Media/Tests.antt =====
-- Media types that upstreams claim, and the theorems at them.
use openai_api_bridge.Prelude.{◌≡◌, refl, ◌⊎◌, true, codes, before, strip, text_eq}
use openai_api_bridge.Media.{
  serveable_types, opaque_type, member, sanitize_content_type, asset_extension, image_filename,
}
use openai_api_bridge.Media.Types.{sanitize_content_type_closed}

png : sanitize_content_type (codes "image/PNG; q=1") ≡ codes "image/png"
unfolding sanitize_content_type strip before text_eq
png = refl

html : sanitize_content_type (codes "text/html") ≡ codes "application/octet-stream"
unfolding sanitize_content_type strip before text_eq
html = refl

movie : asset_extension (codes "video/quicktime") ≡ codes ".mov"
unfolding asset_extension strip before text_eq
movie = refl

movie_is_no_image :
    image_filename (codes "video/mp4") (codes "image") (codes "image") ≡ codes "image"
unfolding image_filename strip before text_eq
movie_is_no_image = refl

sanitize_content_type_closed_example :
    ((member (sanitize_content_type (codes "Image/PNG")) serveable_types ≡ true)
      ⊎ (sanitize_content_type (codes "Image/PNG") ≡ opaque_type))
    × (sanitize_content_type (sanitize_content_type (codes "Image/PNG"))
        ≡ sanitize_content_type (codes "Image/PNG"))
sanitize_content_type_closed_example = sanitize_content_type_closed (codes "Image/PNG")
