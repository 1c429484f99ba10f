-- ===== src/Ids.antt =====
-- util/ids.py: `slugify`. `lower` stands for `str.lower`. The regular expressions are functions on
-- the text: a run of separators, and one of hyphens, is replaced at its last character.
pub mod Slugs
mod Tests
use openai_api_bridge.Prelude.{
  ℕ, Bool, true, false, List, [], ◌∷◌, ◌&&◌, ◌||◌, not, leb, ◌==◌, if◌then◌else◌, Text, is_space,
  strip,
}

-- `_SEPARATOR_RE`: white space, `/`, `:`, `.` and the backslash
unfoldable pub is_separator : ℕ → Bool
unfolding is_space
is_separator c = is_space c || c == b'/' || c == b':' || c == b'.' || c == 92

-- the complement of `_NON_SLUG_RE`
unfoldable pub is_slug_char : ℕ → Bool
is_slug_char c = leb b'a' c && leb c b'z' || leb b'0' c && leb c b'9' || c == b'-'

abbrev begins_separator : Text → Bool
unfolding is_separator
begins_separator [] = false
begins_separator (c ∷ s) = is_separator c

abbrev pub begins_hyphen : Text → Bool
begins_hyphen [] = false
begins_hyphen (c ∷ s) = c == b'-'

abbrev pub is_empty : Text → Bool
is_empty [] = true
is_empty (c ∷ s) = false

-- `_SEPARATOR_RE.sub("-", s)`
unfoldable pub separated : Text → Text
unfolding is_separator begins_separator
separated [] = []
separated (c ∷ s) =
    let rest = separated s in
    if is_separator c then (if begins_separator s then rest else b'-' ∷ rest) else c ∷ rest

-- `_NON_SLUG_RE.sub("", s)`
unfoldable pub filtered : Text → Text
unfolding is_slug_char
filtered [] = []
filtered (c ∷ s) = let rest = filtered s in if is_slug_char c then c ∷ rest else rest

-- `_HYPHEN_RUN_RE.sub("-", s)`
unfoldable pub collapsed : Text → Text
collapsed [] = []
collapsed (c ∷ s) =
    let rest = collapsed s in if c == b'-' && begins_hyphen s then rest else c ∷ rest

-- `s.strip("-")`, from the left and from the right
unfoldable pub left_trimmed : Text → Text
left_trimmed [] = []
left_trimmed (c ∷ s) = let rest = left_trimmed s in if c == b'-' then rest else c ∷ s

unfoldable pub right_trimmed : Text → Text
right_trimmed [] = []
right_trimmed (c ∷ s) =
    let rest = right_trimmed s in if c == b'-' && is_empty rest then [] else c ∷ rest

unfoldable pub slugify : (Text → Text) → Text → Text
unfolding separated filtered collapsed left_trimmed right_trimmed strip
slugify lower name =
    right_trimmed (left_trimmed (collapsed (filtered (separated (strip (lower name))))))
