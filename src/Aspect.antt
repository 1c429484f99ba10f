-- ===== src/Aspect.antt =====
-- util/aspect.py: the parsing of aspect ratios and the choice of the nearest one. The ratio of an
-- option is kept as its width and height; `distance` stands for the float
-- `abs(math.log(o.ratio) - math.log(want.ratio))`, by its rank among the floats.
pub mod Spelling
pub mod Menu
pub mod Snap
mod Tests
use openai_api_bridge.Prelude.{
  ℕ, zero, suc, ◌+◌, Bool, true, false, Option, none, some, List, [], ◌∷◌, ◌++◌, ◌&&◌, ◌||◌, leb,
  ltb, ◌==◌, if◌then◌else◌, Text, codes, text_eq, is_space, strip, take_digits, value, show,
}
use openai_api_bridge.Prelude.Texts.{lstrip}
use openai_api_bridge.Json.{Json, text, Items, nil, cons, array, Object, empty, member, object}

pub record AspectRatio : Type 0 where
  pub value' : Text
  pub label : Option Text
  pub literal : Text
  pub width : ℕ
  pub height : ℕ

-- `s.startswith("(") and s.endswith(")")`, and then `s[1:-1]`
unfoldable pub without_last : Text → Text
without_last [] = []
without_last (c ∷ []) = []
without_last (c ∷ d ∷ s) = c ∷ without_last (d ∷ s)

unfoldable pub ends_with : ℕ → Text → Bool
ends_with a [] = false
ends_with a (c ∷ []) = c == a
ends_with a (c ∷ d ∷ s) = ends_with a (d ∷ s)

unfoldable pub unparenthesised : Text → Text
unfolding without_last ends_with
unparenthesised [] = []
unparenthesised (c ∷ s) =
    if c == b'(' && ends_with b')' (c ∷ s) then strip (without_last s) else c ∷ s

abbrev or_none : Text → Option Text
or_none [] = none
or_none (c ∷ s) = some (c ∷ s)

unfoldable pub label_of : Text → Option Text
unfolding unparenthesised
label_of rest = or_none (unparenthesised (strip rest))

-- `_RATIO`: the two groups of digits and what follows, from the outside in
abbrev pub second_group : List ℕ → List ℕ × Text → Option (List ℕ × List ℕ × Text)
second_group ws ([], rest) = none
second_group ws (h ∷ hs, rest) = some (ws, h ∷ hs, rest)

unfoldable pub after_colon : List ℕ → Text → Option (List ℕ × List ℕ × Text)
after_colon ws [] = none
after_colon ws (c ∷ s) = if c == b':' then second_group ws (take_digits 6 (lstrip s)) else none

unfoldable pub first_group : List ℕ × Text → Option (List ℕ × List ℕ × Text)
unfolding after_colon
first_group ([], s) = none
first_group (w ∷ ws, s) = after_colon (w ∷ ws) (lstrip s)

unfoldable pub match_ratio : Text → Option (List ℕ × List ℕ × Text)
unfolding first_group
match_ratio s = first_group (take_digits 6 (lstrip s))

unfoldable pub of_match : Text → List ℕ → List ℕ → Text → Option AspectRatio
unfolding label_of
of_match literal ws hs rest =
    let w = value 0 ws in
    let h = value 0 hs in
    if w == 0 || h == 0
    then none
    else some (record {
      value' = show w ++ b':' ∷ show h;
      label = label_of rest;
      literal = literal;
      width = w;
      height = h;
    })

abbrev pub of_groups : Text → Option (List ℕ × List ℕ × Text) → Option AspectRatio
of_groups literal none = none
of_groups literal (some (ws, hs, rest)) = of_match literal ws hs rest

unfoldable pub parse_text : Text → Option AspectRatio
unfolding match_ratio of_match
parse_text literal = of_groups literal (match_ratio literal)

-- `parse_aspect_ratio`: anything but a text is no ratio
unfoldable pub parse_aspect_ratio : Json → Option AspectRatio
unfolding parse_text
parse_aspect_ratio (text literal) = parse_text literal
parse_aspect_ratio _ = none

unfoldable pub is_seen : Text → List AspectRatio → Bool
is_seen v [] = false
is_seen v (o ∷ os) = text_eq o.value' v || is_seen v os

-- the options after one more entry: one that is no ratio, or repeats a value, is dropped
unfoldable pub add_entry : Option AspectRatio → List AspectRatio → List AspectRatio
unfolding is_seen
add_entry none out = out
add_entry (some parsed) out = if is_seen parsed.value' out then out else out ++ parsed ∷ []

unfoldable pub parse_entries : List AspectRatio → Items → List AspectRatio
unfolding parse_aspect_ratio add_entry
parse_entries out nil = out
parse_entries out (cons entry entries) =
    parse_entries (add_entry (parse_aspect_ratio entry) out) entries

unfoldable pub parse_aspect_ratios : Json → List AspectRatio
unfolding parse_entries
parse_aspect_ratios (array entries) = parse_entries [] entries
parse_aspect_ratios _ = []

unfoldable pub find_value : Text → List AspectRatio → Option AspectRatio
find_value v [] = none
find_value v (o ∷ os) = if text_eq o.value' v then some o else find_value v os

-- an exact match goes before the nearest option
abbrev pub exactly : Option AspectRatio → AspectRatio → AspectRatio
exactly none o = o
exactly (some option) o = option

module _ (distance : AspectRatio → AspectRatio → ℕ) where
  -- `min` with a key: the first option that none is nearer than
  unfoldable pub nearest : AspectRatio → AspectRatio → List AspectRatio → AspectRatio
  nearest want best [] = best
  nearest want best (o ∷ os) =
      if ltb (distance o want) (distance best want) then nearest want o os else nearest want best os

  unfoldable pub snap_to : List AspectRatio → AspectRatio → Option AspectRatio
  unfolding nearest find_value
  snap_to [] want = none
  snap_to (o ∷ os) want = some (exactly (find_value want.value' (o ∷ os)) (nearest want o os))

  abbrev pub snap_parsed : Option AspectRatio → List AspectRatio → Option AspectRatio
  snap_parsed none options = none
  snap_parsed (some want) options = snap_to options want

  unfoldable pub snap_aspect_ratio : Json → List AspectRatio → Option AspectRatio
  unfolding snap_to parse_aspect_ratio
  snap_aspect_ratio requested options = snap_parsed (parse_aspect_ratio requested) options

unfoldable pub advertised : List AspectRatio → Items
advertised [] = nil
advertised (o ∷ os) =
    cons
      (object (
        member (codes "value") (text o.value')
          (elim o.label [ none ↦ empty | some l ↦ member (codes "label") (text l) empty ])))
      (advertised os)
