-- ===== src/Labels.antt =====
-- backends/base.py: `disambiguate_display_names` and the labels that it makes. `upper`, `casefold` and
-- `is_alnum` stand for the methods of `str`. The loop over the shared segments has as much fuel as
-- the first id has segments, and each round is over one more of them.
pub mod Renaming
mod Tests
use openai_api_bridge.Prelude.{
  ℕ, zero, suc, ◌+◌, Bool, true, false, not, Option, none, some, List, [], ◌∷◌, ◌++◌, ◌&&◌, ◌||◌,
  leb, ltb, ◌==◌, if◌then◌else◌, length, drop, Text, codes, text_eq,
}
use openai_api_bridge.Models.{assign, find, is_in, is_empty, ModelEntry}

abbrev with_first : ℕ → List Text → List Text
with_first c [] = (c ∷ []) ∷ []
with_first c (t ∷ ts) = (c ∷ t) ∷ ts

-- `s.split(sep)`
unfoldable pub split : ℕ → Text → List Text
split sep [] = [] ∷ []
split sep (c ∷ s) = let rest = split sep s in if c == sep then [] ∷ rest else with_first c rest

-- `sep.join(parts)`
abbrev pub join : ℕ → List Text → Text
join sep [] = []
join sep (t ∷ []) = t
join sep (t ∷ u ∷ ts) = t ++ sep ∷ join sep (u ∷ ts)

-- what a class of characters takes from the front, and what it leaves
unfoldable pub span : (ℕ → Bool) → Text → Text × Text
span p [] = ([], [])
span p (c ∷ s) = let (taken, rest) = span p s in if p c then (c ∷ taken, rest) else ([], c ∷ s)

abbrev is_lower : ℕ → Bool
is_lower c = leb b'a' c && leb c b'z'

-- `\d`, which matches other digits than the ASCII ones too; those are not modelled
abbrev is_digit : ℕ → Bool
is_digit c = leb b'0' c && leb c b'9'

abbrev is_digit_or_dot : ℕ → Bool
is_digit_or_dot c = is_digit c || c == b'.'

-- `_VERSION_TOKEN`
unfoldable pub is_version : Text → Bool
unfolding span
is_version w =
    let (letters, rest) = span is_lower w in
    let (digits, rest') = span is_digit_or_dot rest in
    let (tail, end) = span is_lower rest' in
    leb (length letters) 2 && not (is_empty digits) && leb (length tail) 3 && is_empty end

-- `_RESOLUTION_TOKEN`
unfoldable pub is_resolution : Text → Bool
unfolding span text_eq
is_resolution w =
    let (digits, rest) = span is_digit w in not (is_empty digits) && text_eq rest (codes "p")

abbrev acronyms : List (Text × Text)
acronyms =
    (codes "ocr", codes "OCR")
    ∷ (codes "sdxl", codes "SDXL")
    ∷ (codes "lcm", codes "LCM")
    ∷ (codes "svd", codes "SVD")
    ∷ (codes "sam", codes "SAM")
    ∷ (codes "rle", codes "RLE")
    ∷ (codes "svg", codes "SVG")
    ∷ (codes "mlsd", codes "MLSD")
    ∷ (codes "hed", codes "HED")
    ∷ (codes "pidi", codes "PiDi")
    ∷ (codes "teed", codes "TEED")
    ∷ (codes "bbox", codes "BBox")
    ∷ (codes "lora", codes "LoRA")
    ∷ (codes "controlnet", codes "ControlNet")
    ∷ (codes "flf2v", codes "FLF2V")
    ∷ (codes "srpo", codes "SRPO")
    ∷ (codes "rf", codes "RF")
    ∷ (codes "sd", codes "SD")
    ∷ (codes "ai", codes "AI")
    ∷ (codes "hd", codes "HD")
    ∷ (codes "api", codes "API")
    ∷ (codes "nsfw", codes "NSFW")
    ∷ (codes "3d", codes "3D")
    ∷ (codes "2d", codes "2D")
    ∷ []

abbrev connectors : List Text
connectors =
    codes "to"
    ∷ codes "with"
    ∷ codes "and"
    ∷ codes "of"
    ∷ codes "for"
    ∷ codes "in"
    ∷ codes "on"
    ∷ codes "the"
    ∷ codes "a"
    ∷ codes "an"
    ∷ codes "from"
    ∷ codes "by"
    ∷ []

abbrev is_nonempty : Text → Bool
is_nonempty t = not (is_empty t)

abbrev nonempty_only : List Text → List Text
nonempty_only [] = []
nonempty_only (t ∷ ts) = let rest = nonempty_only ts in if is_empty t then rest else t ∷ rest

module _ (upper : Text → Text) where
  abbrev capitalised : Text → Text
  capitalised [] = []
  capitalised (c ∷ s) = upper (c ∷ []) ++ s

  abbrev plain_word : Bool → Text → Text
  plain_word first word =
      if is_resolution word
      then word
      else if is_version word
      then upper word
      else if is_in word connectors && not first
      then word
      else capitalised word

  abbrev spelled_word : Bool → Text → Option Text → Text
  spelled_word first word none = plain_word first word
  spelled_word first word (some acronym) = acronym

  unfoldable pub prettify_word : Bool → Text → Text
  unfolding is_version is_resolution find text_eq
  prettify_word first word = spelled_word first word (find word acronyms)

  -- the words of a segment, and whether a word is still to come first
  unfoldable pub prettify_words : Bool → List Text → List Text × Bool
  unfolding prettify_word
  prettify_words first [] = ([], first)
  prettify_words first (w ∷ ws) =
      let (rest, still) = prettify_words (first && is_empty w) ws in
      (if is_empty w then rest else prettify_word first w ∷ rest, still)

  unfoldable pub prettify_segments : Bool → List Text → List Text
  unfolding prettify_words split
  prettify_segments first [] = []
  prettify_segments first (s ∷ ss) =
      let (words, still) = prettify_words first (split b'-' s) in
      join b'-' words ∷ prettify_segments still ss

  unfoldable pub prettify : Text → Text
  unfolding prettify_segments split
  prettify suffix = join b' ' (nonempty_only (prettify_segments true (split b'/' suffix)))

abbrev only : (ℕ → Bool) → Text → Text
only p [] = []
only p (c ∷ s) = let rest = only p s in if p c then c ∷ rest else rest

abbrev name_of : Option Text → Text
name_of none = []
name_of (some t) = t

abbrev group_of : Option (List ℕ) → List ℕ
group_of none = []
group_of (some is) = is

abbrev pub Groups : Type 0
Groups = List (Text × List ℕ)

-- the indices of the entries by their names
unfoldable pub groups : ℕ → Groups → List ModelEntry → Groups
unfolding assign find
groups i gs [] = gs
groups i gs (e ∷ es) =
    let name = name_of e.display_name in
    groups (i + 1)
      (if is_empty name then gs else assign name (group_of (find name gs) ++ i ∷ []) gs) es

-- `out[i].id`
unfoldable pub id_at : ℕ → List ModelEntry → Option Text
id_at i [] = none
id_at zero (e ∷ es) = some e.id
id_at (suc i) (e ∷ es) = id_at i es

-- `out[i] = replace(out[i], display_name=…)`
unfoldable pub set_name : ℕ → Text → List ModelEntry → List ModelEntry
set_name i name [] = []
set_name zero name (e ∷ es) = record e { display_name = some name } ∷ es
set_name (suc i) name (e ∷ es) = e ∷ set_name i name es

abbrev segment_at : ℕ → List Text → Option Text
segment_at n [] = none
segment_at zero (s ∷ ss) = some s
segment_at (suc n) (s ∷ ss) = segment_at n ss

abbrev same_segment : Option Text → Option Text → Bool
same_segment (some s) (some t) = text_eq s t
same_segment _ _ = false

abbrev all_longer : ℕ → List (List Text) → Bool
all_longer n [] = true
all_longer n (s ∷ ss) = ltb n (length s) && all_longer n ss

abbrev all_same : ℕ → List Text → List (List Text) → Bool
all_same n first [] = true
all_same n first (s ∷ ss) =
    same_segment (segment_at n first) (segment_at n s) && all_same n first ss

-- the `while` loop
unfoldable pub shared_segments : ℕ → ℕ → ℕ → List Text → List (List Text) → ℕ
shared_segments zero floor shared first segments = shared
shared_segments (suc fuel) floor shared first segments =
    let rest = shared_segments fuel floor (shared + 1) first segments in
    if all_longer (shared + floor) segments && all_same shared first segments then rest else shared

abbrev pub shared_prefix : ℕ → List (List Text) → ℕ
shared_prefix floor [] = 0
shared_prefix floor (s ∷ ss) = shared_segments (length s) floor 0 s (s ∷ ss)

-- the indices of a group whose ids are not pinned, with those ids
abbrev pub free : List Text → ℕ → Option Text → List (ℕ × Text) → List (ℕ × Text)
free pinned i none rest = rest
free pinned i (some id) rest = if is_in id pinned then rest else (i, id) ∷ rest

unfoldable pub renaming : List Text → List ModelEntry → List ℕ → List (ℕ × Text)
unfolding id_at
renaming pinned out [] = []
renaming pinned out (i ∷ is) = free pinned i (id_at i out) (renaming pinned out is)

abbrev pub all_segments : List (ℕ × Text) → List (List Text)
all_segments [] = []
all_segments ((i, id) ∷ rest) = split b'/' id ∷ all_segments rest

module _ (upper casefold : Text → Text) (is_alnum : ℕ → Bool) where
  abbrev pub squashed : Text → Text
  squashed t = only is_alnum (casefold t)

  abbrev pub rename : Bool → Text → Text → ℕ → List ModelEntry → List ModelEntry
  rename may_shed name label i out =
      if may_shed && (is_empty label || text_eq (squashed label) (squashed name))
      then out
      else set_name i (name ++ codes " (" ++ label ++ codes ")") out

  unfoldable pub rename_each : Bool → Text → ℕ → List (ℕ × Text) → List ModelEntry → List ModelEntry
  unfolding prettify split set_name text_eq
  rename_each may_shed name shared [] out = out
  rename_each may_shed name shared ((i, id) ∷ rest) out =
      rename_each may_shed name shared rest
        (rename may_shed name (prettify upper (join b'/' (drop shared (split b'/' id)))) i out)

  abbrev pub rename_free : Text → ℕ → List (ℕ × Text) → List ModelEntry → List ModelEntry
  rename_free name members free out =
      let may_shed = length free == members in
      let floor = if may_shed then 0 else 1 in
      rename_each may_shed name (shared_prefix floor (all_segments free)) free out

  unfoldable pub rename_group : List Text → Text → List ℕ → List ModelEntry → List ModelEntry
  unfolding rename_each renaming shared_segments split
  rename_group pinned name is out =
      if ltb (length is) 2 then out else rename_free name (length is) (renaming pinned out is) out

  unfoldable pub rename_groups : List Text → Groups → List ModelEntry → List ModelEntry
  unfolding rename_group
  rename_groups pinned [] out = out
  rename_groups pinned ((name, is) ∷ gs) out =
      rename_groups pinned gs (rename_group pinned name is out)

  unfoldable pub disambiguate_display_names : List ModelEntry → List Text → List ModelEntry
  unfolding rename_groups groups
  disambiguate_display_names entries pinned = rename_groups pinned (groups 0 [] entries) entries
