-- ===== src/Aspect/Tests.antt =====
-- A menu of ratios, and the theorems at it.
use openai_api_bridge.Prelude.{
  ℕ, ◌+◌, ◌-◌, ◌*◌, ◌≤◌, ◌≡◌, ◌⊎◌, inl, refl, none, none, some, [], ◌∷◌, codes, text_eq, strip,
  is_space, take_digits, value, show, arith,
}
use openai_api_bridge.Prelude.Texts.{lstrip}
use openai_api_bridge.Json.{Json, text, array, nil, cons, null}
use openai_api_bridge.Aspect.{
  AspectRatio, parse_aspect_ratio, parse_aspect_ratios, snap_aspect_ratio, find_value,
}
use openai_api_bridge.Aspect.Spelling.{spelled, bare, parse_aspect_ratio-spelled}
use openai_api_bridge.Aspect.Menu.{IsIn}
use openai_api_bridge.Aspect.Snap.{advertised_is_honoured, snap_is_nearest}

abbrev widescreen : AspectRatio
widescreen = record {
  value' = codes "16:9";
  label = some (codes "Widescreen");
  literal = codes " 16 : 9 (Widescreen)";
  width = 16;
  height = 9;
}

widescreen_parsed : parse_aspect_ratio (text (codes " 16 : 9 (Widescreen)")) ≡ some widescreen
unfolding parse_aspect_ratio strip lstrip is_space take_digits value show
widescreen_parsed = refl

abbrev menu : Json
menu = array (
    cons (text (codes " 16 : 9 (Widescreen)"))
      (cons null (cons (text (codes "016:9")) (cons (text (codes "1:1")) nil))))

menu_parsed : parse_aspect_ratios menu ≡ widescreen ∷ bare 1 1 ∷ []
unfolding parse_aspect_ratios strip lstrip is_space text_eq take_digits value show
menu_parsed = refl

-- a distance for the tests: how far the cross products are apart
abbrev crossed : AspectRatio → AspectRatio → ℕ
crossed o w = (o.width * w.height - w.width * o.height) + (w.width * o.height - o.width * w.height)

parse_aspect_ratio-spelled_example : parse_aspect_ratio (text (spelled 21 9)) ≡ some (bare 21 9)
parse_aspect_ratio-spelled_example =
    parse_aspect_ratio-spelled 21 9 (omega arith) (omega arith) (omega arith) (omega arith)

widescreen-IsIn : IsIn widescreen (parse_aspect_ratios menu)
unfolding parse_aspect_ratios strip lstrip is_space text_eq take_digits value show
widescreen-IsIn = inl refl

advertised_is_honoured_example :
    snap_aspect_ratio crossed (text (codes "16:9")) (parse_aspect_ratios menu) ≡ some widescreen
advertised_is_honoured_example = advertised_is_honoured crossed menu widescreen widescreen-IsIn

tall_parsed : parse_aspect_ratio (text (codes "2:3")) ≡ some (bare 2 3)
unfolding parse_aspect_ratio strip lstrip is_space take_digits value show
tall_parsed = refl

snap_is_nearest_example :
    (r : AspectRatio) × (snap_aspect_ratio crossed (text (codes "2:3")) (widescreen ∷ bare 1 1 ∷ [])
      ≡ some r)
    × IsIn r (widescreen ∷ bare 1 1 ∷ [])
    × ((find_value (codes "2:3") (widescreen ∷ bare 1 1 ∷ []) ≡ some r)
        ⊎ ((find_value (codes "2:3") (widescreen ∷ bare 1 1 ∷ []) ≡ none)
            × (crossed r (bare 2 3) ≤ crossed widescreen (bare 2 3))))
unfolding show
snap_is_nearest_example =
    snap_is_nearest crossed (text (codes "2:3")) (bare 2 3) widescreen widescreen (bare 1 1 ∷ [])
      tall_parsed (inl refl)
