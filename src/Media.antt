-- ===== src/Media.antt =====
-- util/media.py: the media types that the bridge serves, and the extensions that it gives to files.
-- `str.lower` is written out for the ASCII letters and the Kelvin sign; no other character has an
-- ASCII letter for its lower case, so no other character changes which types are recognised.
pub mod Types
mod Tests
use openai_api_bridge.Prelude.{
  ℕ, ◌+◌, Bool, true, false, Option, none, some, String, List, [], ◌∷◌, ◌++◌, map, ◌&&◌, ◌||◌, leb,
  ◌==◌, if◌then◌else◌, Text, codes, text_eq, before, strip,
}

abbrev pub image_extensions : List (Text × Text)
image_extensions =
    (codes "image/png", codes ".png")
    ∷ (codes "image/jpeg", codes ".jpg")
    ∷ (codes "image/jpg", codes ".jpg")
    ∷ (codes "image/webp", codes ".webp")
    ∷ (codes "image/gif", codes ".gif")
    ∷ (codes "image/bmp", codes ".bmp")
    ∷ (codes "image/tiff", codes ".tiff")
    ∷ (codes "image/avif", codes ".avif")
    ∷ []

abbrev pub video_extensions : List (Text × Text)
video_extensions =
    (codes "video/mp4", codes ".mp4")
    ∷ (codes "video/webm", codes ".webm")
    ∷ (codes "video/quicktime", codes ".mov")
    ∷ []

abbrev pub asset_extensions : List (Text × Text)
asset_extensions = image_extensions ++ video_extensions

-- types that the bridge serves without an extension for them
abbrev pub unnamed_types : List Text
unnamed_types =
    codes "image/apng"
    ∷ codes "image/heic"
    ∷ codes "image/heif"
    ∷ codes "video/x-matroska"
    ∷ codes "video/mpeg"
    ∷ codes "video/ogg"
    ∷ []

abbrev pub serveable_types : List Text
serveable_types = map (λ e. e.0) asset_extensions ++ unnamed_types

abbrev pub opaque_type : Text
opaque_type = codes "application/octet-stream"

-- `t in types`
unfoldable pub member : Text → List Text → Bool
member t [] = false
member t (u ∷ types) = text_eq u t || member t types

-- `table.get(t)`
unfoldable pub extension_of : Text → List (Text × Text) → Option Text
extension_of t [] = none
extension_of t ((u, ext) ∷ table) = if text_eq u t then some ext else extension_of t table

unfoldable pub lower_code : ℕ → ℕ
lower_code c = if leb b'A' c && leb c b'Z' then c + 32 else if c == 0x212a then b'k' else c

abbrev lower : Text → Text
lower [] = []
lower (c ∷ t) = lower_code c ∷ lower t

unfoldable pub normalize_content_type : Text → Text
unfolding lower_code
normalize_content_type content_type = lower (strip (before b';' content_type))

unfoldable pub sanitize_content_type : Text → Text
unfolding normalize_content_type member
sanitize_content_type content_type =
    if member (normalize_content_type content_type) serveable_types
    then normalize_content_type content_type
    else opaque_type

abbrev pub or_else : Option Text → Text → Text
or_else none default = default
or_else (some ext) default = ext

unfoldable pub asset_extension : Text → Text
unfolding normalize_content_type extension_of
asset_extension content_type =
    or_else (extension_of (normalize_content_type content_type) asset_extensions) []

unfoldable pub image_extension : Text → Text → Text
unfolding normalize_content_type extension_of
image_extension content_type default =
    or_else (extension_of (normalize_content_type content_type) image_extensions) default

unfoldable pub image_filename : Text → Text → Text → Text
unfolding normalize_content_type extension_of
image_filename content_type fallback stem =
    elim (extension_of (normalize_content_type content_type) image_extensions) [
      | none ↦ fallback
      | some ext ↦ stem ++ ext
    ]
