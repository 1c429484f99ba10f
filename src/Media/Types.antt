-- ===== src/Media/Types.antt =====
-- What a stored media type can be, and that reading it back changes nothing (util/media.py).
use openai_api_bridge.Prelude.{
  ◌≡◌, refl, sym, ap, ◌∙◌, ◌⊎◌, inl, inr, true, false, none, List, [], ◌∷◌, ◌++◌, map, ◌||◌, Text,
  text_eq, text_eq_sound, text_eq_refl, before, strip, Bool-cases, arith,
}
use mathlib.Core.Path.{subst}
use openai_api_bridge.Media.{
  image_extensions, asset_extensions, serveable_types, opaque_type, unnamed_types, member,
  extension_of, normalize_content_type, sanitize_content_type, asset_extension, or_else,
  image_extension,
}

abbrev AllOf : (Text → Type 0) → List Text → Type 0
AllOf P [] = Unit
AllOf P (t ∷ ts) = P t × AllOf P ts

member-AllOf :
    (P : Text → Type 0) (t : Text) (ts : List Text) → AllOf P ts → member t ts ≡ true → P t
unfolding member
member-AllOf P t [] a h = ground arith
member-AllOf P t (u ∷ ts) (p, a) h = elim (Bool-cases (text_eq u t)) [
  | inl q ↦ subst P (text_eq_sound u t q) p
  | inr q ↦ member-AllOf P t ts a (ground (arith, q, h))
]

normalize-serveable : (t : Text) → member t serveable_types ≡ true → normalize_content_type t ≡ t
unfolding normalize_content_type strip before
normalize-serveable t h =
    member-AllOf (λ u. normalize_content_type u ≡ u) t serveable_types
      (
        refl,
        (
          refl,
          (
            refl,
            (
              refl,
              (
                refl,
                (
                  refl,
                  (
                    refl,
                    (
                      refl,
                      (refl, (refl, (refl, (refl, (refl, (refl, (refl, (refl, (refl, tt))))))))),
                    ),
                  ),
                ),
              ),
            ),
          ),
        ),
      )
      h

normalize-opaque : normalize_content_type opaque_type ≡ opaque_type
unfolding normalize_content_type strip before
normalize-opaque = refl

sanitize_cases :
    (t : Text)
    → ((member (normalize_content_type t) serveable_types ≡ true)
        × (sanitize_content_type t ≡ normalize_content_type t))
      ⊎ ((member (normalize_content_type t) serveable_types ≡ false)
          × (sanitize_content_type t ≡ opaque_type))
unfolding sanitize_content_type
sanitize_cases t = elim (Bool-cases (member (normalize_content_type t) serveable_types)) [
  | inl p ↦ inl (p, ground (arith, p))
  | inr p ↦ inr (p, ground (arith, p))
]

opaque-member : member opaque_type serveable_types ≡ false
unfolding member text_eq
opaque-member = refl

sanitize-served :
    (t : Text)
    → member (normalize_content_type t) serveable_types ≡ true
    → sanitize_content_type (normalize_content_type t) ≡ normalize_content_type t
unfolding sanitize_content_type
sanitize-served t h = ground (arith, h, normalize-serveable (normalize_content_type t) h)

sanitize-opaque : sanitize_content_type opaque_type ≡ opaque_type
unfolding sanitize_content_type
sanitize-opaque = ground (arith, normalize-opaque, opaque-member)

-- What the bridge records for an upstream's claim is one of the types that it serves, or the opaque
-- one, and sanitising it again, as every read of a row does, changes nothing.
pub sanitize_content_type_closed :
    (t : Text)
    → ((member (sanitize_content_type t) serveable_types ≡ true)
        ⊎ (sanitize_content_type t ≡ opaque_type))
      × (sanitize_content_type (sanitize_content_type t) ≡ sanitize_content_type t)
sanitize_content_type_closed t = elim (sanitize_cases t) [
  | inl (m, p) ↦ (
    inl (ap (λ u. member u serveable_types) p ∙ m),
    ap sanitize_content_type p ∙ sanitize-served t m ∙ sym p,
  )
  | inr (m, p) ↦ (inr p, ap sanitize_content_type p ∙ sanitize-opaque ∙ sym p)
]

member-++ : (t : Text) (us vs : List Text) → member t (us ++ vs) ≡ (member t us || member t vs)
unfolding member
member-++ t [] vs = refl
member-++ t (u ∷ us) vs = ground (arith, member-++ t us vs)

member-left : (t : Text) (us vs : List Text) → member t (us ++ vs) ≡ false → member t us ≡ false
member-left t us vs h = ground (arith, member-++ t us vs, h)

extension_of-none :
    (t : Text) (table : List (Text × Text))
    → member t (map (λ e. e.0) table) ≡ false
    → extension_of t table ≡ none
unfolding member extension_of
extension_of-none t [] h = refl
extension_of-none t ((u, ext) ∷ table) h = ground (arith, extension_of-none t table)

unserved-extension :
    (t : Text) → member t serveable_types ≡ false → extension_of t asset_extensions ≡ none
unserved-extension t h =
    extension_of-none t asset_extensions
      (member-left t (map (λ e. e.0) asset_extensions) unnamed_types h)

opaque_extension : or_else (extension_of opaque_type asset_extensions) [] ≡ []
unfolding extension_of text_eq
opaque_extension = refl

-- A stored file has the extension of its sanitised type and of the claimed one alike.
pub asset_extension-sanitize :
    (t : Text) → asset_extension (sanitize_content_type t) ≡ asset_extension t
unfolding asset_extension
asset_extension-sanitize t = elim (sanitize_cases t) [
  | inl (m, p) ↦
      ap (λ u. or_else (extension_of u asset_extensions) [])
        (ap normalize_content_type p ∙ normalize-serveable (normalize_content_type t) m)
  | inr (m, p) ↦
      ap (λ u. or_else (extension_of u asset_extensions) [])
        (ap normalize_content_type p ∙ normalize-opaque)
      ∙ opaque_extension
      ∙ sym (ap (λ e. or_else e []) (unserved-extension (normalize_content_type t) m))
]

extension-or_default :
    (t default : Text) (table : List (Text × Text))
    → (or_else (extension_of t table) default ≡ default)
      ⊎ (member (or_else (extension_of t table) default) (map (λ e. e.1) table) ≡ true)
unfolding extension_of member
extension-or_default t default [] = inl refl
extension-or_default t default ((u, ext) ∷ table) =
    ground (arith, text_eq_refl ext, extension-or_default t default table)

-- A reference image is uploaded under one of the image extensions or under the caller's default: a
-- client cannot choose another extension, a video's among them.
pub image_extension_closed :
    (t default : Text)
    → (image_extension t default ≡ default)
      ⊎ (member (image_extension t default) (map (λ e. e.1) image_extensions) ≡ true)
unfolding image_extension
image_extension_closed t default =
    extension-or_default (normalize_content_type t) default image_extensions
