-- ===== src/Ids/Slugs.antt =====
-- What every slug looks like.
use openai_api_bridge.Prelude.{
  ℕ, ◌≡◌, refl, ap, ◌∙◌, inl, inr, true, false, [], ◌∷◌, ◌&&◌, ◌==◌, Text, strip, contains,
  Bool-cases, on_test, arith,
}
use openai_api_bridge.Ids.{
  is_slug_char, begins_hyphen, filtered, collapsed, left_trimmed, right_trimmed, separated, slugify,
  is_empty,
}

-- only the letters a-z, the digits and hyphens
abbrev pub AreSlugChars : Text → Type 0
AreSlugChars [] = Unit
AreSlugChars (c ∷ s) = (is_slug_char c ≡ true) × AreSlugChars s

-- no two hyphens in a row, and none at the end
abbrev pub AreSpaced : Text → Type 0
AreSpaced [] = Unit
AreSpaced (c ∷ s) = ((c == b'-' && begins_hyphen s) ≡ false) × AreSpaced s

abbrev pub EndsWell : Text → Type 0
EndsWell [] = Unit
EndsWell (c ∷ s) = ((c == b'-' && is_empty s) ≡ false) × EndsWell s

pub record IsSlug (s : Text) : Type 0 where
  pub chars : AreSlugChars s
  pub spaced : AreSpaced s
  pub begins : begins_hyphen s ≡ false
  pub ends : EndsWell s

filtered-AreSlugChars : (s : Text) → AreSlugChars (filtered s)
unfolding filtered
filtered-AreSlugChars [] = tt
filtered-AreSlugChars (c ∷ s) =
    on_test AreSlugChars (is_slug_char c) (λ p. (p, filtered-AreSlugChars s))
      (λ _. filtered-AreSlugChars s)

collapsed-AreSlugChars : (s : Text) → AreSlugChars s → AreSlugChars (collapsed s)
unfolding collapsed
collapsed-AreSlugChars [] h = tt
collapsed-AreSlugChars (c ∷ s) (h, hs) =
    on_test AreSlugChars (c == b'-' && begins_hyphen s) (λ _. collapsed-AreSlugChars s hs)
      (λ _. (h, collapsed-AreSlugChars s hs))

left_trimmed-AreSlugChars : (s : Text) → AreSlugChars s → AreSlugChars (left_trimmed s)
unfolding left_trimmed
left_trimmed-AreSlugChars [] h = tt
left_trimmed-AreSlugChars (c ∷ s) (h, hs) =
    on_test AreSlugChars (c == b'-') (λ _. left_trimmed-AreSlugChars s hs) (λ _. (h, hs))

right_trimmed-AreSlugChars : (s : Text) → AreSlugChars s → AreSlugChars (right_trimmed s)
unfolding right_trimmed
right_trimmed-AreSlugChars [] h = tt
right_trimmed-AreSlugChars (c ∷ s) (h, hs) =
    on_test AreSlugChars (c == b'-' && is_empty (right_trimmed s)) (λ _. tt)
      (λ _. (h, right_trimmed-AreSlugChars s hs))

-- a run of hyphens is replaced, so what is left begins as the run does
begins-collapsed : (s : Text) → begins_hyphen (collapsed s) ≡ begins_hyphen s
unfolding collapsed
begins-collapsed [] = refl
begins-collapsed (c ∷ s) = elim (Bool-cases (c == b'-')) [
  | inl p ↦ ground (arith, p, begins-collapsed s)
  | inr p ↦ ground (arith, p)
]

collapsed-AreSpaced : (s : Text) → AreSpaced (collapsed s)
unfolding collapsed
collapsed-AreSpaced [] = tt
collapsed-AreSpaced (c ∷ s) =
    on_test AreSpaced (c == b'-' && begins_hyphen s) (λ _. collapsed-AreSpaced s)
      (λ p. (ap (λ b. c == b'-' && b) (begins-collapsed s) ∙ p, collapsed-AreSpaced s))

left_trimmed-AreSpaced : (s : Text) → AreSpaced s → AreSpaced (left_trimmed s)
unfolding left_trimmed
left_trimmed-AreSpaced [] h = tt
left_trimmed-AreSpaced (c ∷ s) (h, hs) =
    on_test AreSpaced (c == b'-') (λ _. left_trimmed-AreSpaced s hs) (λ _. (h, hs))

begins-left_trimmed : (s : Text) → begins_hyphen (left_trimmed s) ≡ false
unfolding left_trimmed
begins-left_trimmed [] = refl
begins-left_trimmed (c ∷ s) =
    on_test (λ t. begins_hyphen t ≡ false) (c == b'-') (λ _. begins-left_trimmed s) (λ p. p)

-- trimming on the right leaves the beginning, or nothing
begins-right_trimmed :
    (s : Text) → begins_hyphen s ≡ false → begins_hyphen (right_trimmed s) ≡ false
unfolding right_trimmed
begins-right_trimmed [] h = refl
begins-right_trimmed (c ∷ s) h =
    on_test (λ t. begins_hyphen t ≡ false) (c == b'-' && is_empty (right_trimmed s)) (λ _. refl)
      (λ _. h)

right_trimmed-spaced :
    (c : ℕ) (s : Text)
    → (c == b'-' && begins_hyphen s) ≡ false
    → (c == b'-' && begins_hyphen (right_trimmed s)) ≡ false
right_trimmed-spaced c s h = elim (Bool-cases (c == b'-')) [
  | inl p ↦ ground (arith, p, h, begins-right_trimmed s (ground (arith, p, h)))
  | inr p ↦ ground (arith, p)
]

right_trimmed-AreSpaced : (s : Text) → AreSpaced s → AreSpaced (right_trimmed s)
unfolding right_trimmed
right_trimmed-AreSpaced [] h = tt
right_trimmed-AreSpaced (c ∷ s) (h, hs) =
    on_test AreSpaced (c == b'-' && is_empty (right_trimmed s)) (λ _. tt)
      (λ _. (right_trimmed-spaced c s h, right_trimmed-AreSpaced s hs))

right_trimmed-EndsWell : (s : Text) → EndsWell (right_trimmed s)
unfolding right_trimmed
right_trimmed-EndsWell [] = tt
right_trimmed-EndsWell (c ∷ s) =
    on_test EndsWell (c == b'-' && is_empty (right_trimmed s)) (λ _. tt)
      (λ p. (p, right_trimmed-EndsWell s))

-- Every slug consists of the letters a-z, the digits and hyphens, has no two hyphens in a row, and
-- neither begins nor ends with a hyphen, whatever the name and whatever `lower` gives.
pub slugify-IsSlug : (lower : Text → Text) (name : Text) → IsSlug (slugify lower name)
unfolding slugify
slugify-IsSlug lower name = record {
  chars = right_trimmed-AreSlugChars trimmed (
      left_trimmed-AreSlugChars single
        (collapsed-AreSlugChars (filtered parts) (filtered-AreSlugChars parts)));
  spaced =
      right_trimmed-AreSpaced trimmed
        (left_trimmed-AreSpaced single (collapsed-AreSpaced (filtered parts)));
  begins = begins-right_trimmed trimmed (begins-left_trimmed single);
  ends = right_trimmed-EndsWell trimmed;
}
  where
    parts : Text
    parts = separated (strip (lower name))

    single : Text
    single = collapsed (filtered parts)

    trimmed : Text
    trimmed = left_trimmed single

no_slash : (s : Text) → AreSlugChars s → contains b'/' s ≡ false
unfolding contains is_slug_char
no_slash [] h = refl
no_slash (c ∷ s) (h, hs) = ground (arith, h, no_slash s hs)

pub IsSlug-slash : (s : Text) → IsSlug s → contains b'/' s ≡ false
IsSlug-slash s h = no_slash s h.chars
