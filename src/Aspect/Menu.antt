-- ===== src/Aspect/Menu.antt =====
-- The menu that util/aspect.py parses from a declaration: canonical options, no value twice.
use mathlib.Core.Path.{subst}
use openai_api_bridge.Prelude.{
  ℕ, ◌<◌, ◌≡◌, refl, ap, ◌∙◌, ◌⊎◌, inl, inr, true, false, Option, none, some, List, [], ◌∷◌, ◌++◌,
  ◌||◌, ◌==◌, if◌then◌else◌, on_test, Text, text_eq, text_eq_refl, text_eq_sym, text_eq_sound,
  take_digits, value, Bool-cases, arith,
}
use openai_api_bridge.Prelude.Texts.{lstrip}
use openai_api_bridge.Prelude.Decimal.{take_digits-AreDigits, take_digits-length, value-lt}
use openai_api_bridge.Json.{
  Json, null, boolean, integer, float, text, array, object, Items, nil, cons,
}
use openai_api_bridge.Aspect.{
  AspectRatio, label_of, second_group, after_colon, first_group, match_ratio, of_match, of_groups,
  parse_text, parse_aspect_ratio, is_seen, add_entry, parse_entries, parse_aspect_ratios,
  find_value,
}
use openai_api_bridge.Aspect.Spelling.{spelled}

-- two positive numbers of at most six digits, under their canonical spelling
pub record IsCanonical (o : AspectRatio) : Type 0 where
  pub spelling : o.value' ≡ spelled o.width o.height
  pub wide : 0 < o.width
  pub high : 0 < o.height
  pub width_small : o.width < 1000000
  pub height_small : o.height < 1000000

abbrev AreSmall : Option (List ℕ × List ℕ × Text) → Type 0
AreSmall none = Unit
AreSmall (some (ws, hs, rest)) = (value 0 ws < 1000000) × (value 0 hs < 1000000)

small : (s : Text) → value 0 (take_digits 6 s).0 < 1000000
small s =
    value-lt 0 1 6 (take_digits 6 s).0 (take_digits-AreDigits 6 s) (take_digits-length 6 s)
      (omega arith)

second_group-AreSmall :
    (ws : List ℕ) (found : List ℕ × Text)
    → value 0 ws < 1000000
    → value 0 found.0 < 1000000
    → AreSmall (second_group ws found)
second_group-AreSmall ws ([], rest) h h' = tt
second_group-AreSmall ws (d ∷ ds, rest) h h' = (h, h')

after_colon-AreSmall : (ws : List ℕ) (s : Text) → value 0 ws < 1000000 → AreSmall (after_colon ws s)
unfolding after_colon
after_colon-AreSmall ws [] h = tt
after_colon-AreSmall ws (c ∷ s) h =
    on_test AreSmall (c == b':') {x = second_group ws (take_digits 6 (lstrip s))} {y = none}
      (λ _. second_group-AreSmall ws (take_digits 6 (lstrip s)) h (small (lstrip s))) (λ _. tt)

first_group-AreSmall :
    (found : List ℕ × Text) → value 0 found.0 < 1000000 → AreSmall (first_group found)
unfolding first_group
first_group-AreSmall ([], s) h = tt
first_group-AreSmall (w ∷ ws, s) h = after_colon-AreSmall (w ∷ ws) (lstrip s) h

abbrev Canonical? : Option AspectRatio → Type 0
Canonical? none = Unit
Canonical? (some o) = IsCanonical o

of_match-IsCanonical :
    (l : Text) (ws hs : List ℕ) (rest : Text)
    → value 0 ws < 1000000
    → value 0 hs < 1000000
    → Canonical? (of_match l ws hs rest)
unfolding of_match
of_match-IsCanonical l ws hs rest h h' =
    on_test Canonical? (value 0 ws == 0 || value 0 hs == 0) {x = none}
      {y = some (record {
        value' = spelled (value 0 ws) (value 0 hs);
        label = label_of rest;
        literal = l;
        width = value 0 ws;
        height = value 0 hs;
      })}
      (λ _. tt)
      (λ b. record {
        spelling = refl;
        wide = ground (arith, b);
        high = ground (arith, b);
        width_small = h;
        height_small = h';
      })

of_groups-IsCanonical :
    (l : Text) (m : Option (List ℕ × List ℕ × Text)) → AreSmall m → Canonical? (of_groups l m)
of_groups-IsCanonical l none h = tt
of_groups-IsCanonical l (some (ws, hs, rest)) (h, h') = of_match-IsCanonical l ws hs rest h h'

parse-Canonical : (j : Json) → Canonical? (parse_aspect_ratio j)
unfolding parse_aspect_ratio parse_text match_ratio
parse-Canonical (text l) =
    of_groups-IsCanonical l (match_ratio l)
      (first_group-AreSmall (take_digits 6 (lstrip l)) (small (lstrip l)))
parse-Canonical null = tt
parse-Canonical (boolean b) = tt
parse-Canonical (integer b n) = tt
parse-Canonical (float b t) = tt
parse-Canonical (array xs) = tt
parse-Canonical (object o) = tt

-- canonical options, no value twice
abbrev pub IsMenu : List AspectRatio → Type 0
IsMenu [] = Unit
IsMenu (o ∷ os) = IsCanonical o × (is_seen o.value' os ≡ false) × IsMenu os

is_seen-snoc :
    (v : Text) (o : AspectRatio) (os : List AspectRatio)
    → is_seen v (os ++ o ∷ []) ≡ (is_seen v os || text_eq o.value' v)
unfolding is_seen
is_seen-snoc v o [] = ground arith
is_seen-snoc v o (p ∷ os) = ground (arith, is_seen-snoc v o os)

snoc-IsMenu :
    (o : AspectRatio) (os : List AspectRatio)
    → IsCanonical o
    → is_seen o.value' os ≡ false
    → IsMenu os
    → IsMenu (os ++ o ∷ [])
unfolding is_seen
snoc-IsMenu o [] c h m = (c, refl, tt)
snoc-IsMenu o (p ∷ os) c h (d, g, m) = (
  d,
  ground (arith, is_seen-snoc p.value' o os, g, h, text_eq_sym o.value' p.value'),
  snoc-IsMenu o os c (ground (arith, h)) m,
)

add_entry-IsMenu :
    (o : Option AspectRatio) (out : List AspectRatio)
    → Canonical? o
    → IsMenu out
    → IsMenu (add_entry o out)
unfolding add_entry
add_entry-IsMenu none out c m = m
add_entry-IsMenu (some o) out c m =
    on_test IsMenu (is_seen o.value' out) {x = out} {y = out ++ o ∷ []} (λ _. m)
      (λ b. snoc-IsMenu o out c b m)

parse_entries-IsMenu :
    (out : List AspectRatio) (entries : Items) → IsMenu out → IsMenu (parse_entries out entries)
unfolding parse_entries
parse_entries-IsMenu out nil m = m
parse_entries-IsMenu out (cons e entries) m =
    parse_entries-IsMenu (add_entry (parse_aspect_ratio e) out) entries
      (add_entry-IsMenu (parse_aspect_ratio e) out (parse-Canonical e) m)

pub parse_aspect_ratios-IsMenu : (raw : Json) → IsMenu (parse_aspect_ratios raw)
unfolding parse_aspect_ratios
parse_aspect_ratios-IsMenu (array xs) = parse_entries-IsMenu [] xs tt
parse_aspect_ratios-IsMenu (text l) = tt
parse_aspect_ratios-IsMenu null = tt
parse_aspect_ratios-IsMenu (boolean b) = tt
parse_aspect_ratios-IsMenu (integer b n) = tt
parse_aspect_ratios-IsMenu (float b t) = tt
parse_aspect_ratios-IsMenu (object o) = tt

abbrev pub IsIn : AspectRatio → List AspectRatio → Type 0
IsIn o [] = ⊥
IsIn o (p ∷ os) = (p ≡ o) ⊎ IsIn o os

pub IsIn-Canonical :
    (o : AspectRatio) (os : List AspectRatio) → IsMenu os → IsIn o os → IsCanonical o
IsIn-Canonical o [] m i = absurd i
IsIn-Canonical o (p ∷ os) (c, h, m) (inl q) = subst IsCanonical q c
IsIn-Canonical o (p ∷ os) (c, h, m) (inr i) = IsIn-Canonical o os m i

pub IsIn-seen : (o : AspectRatio) (os : List AspectRatio) → IsIn o os → is_seen o.value' os ≡ true
unfolding is_seen
IsIn-seen o [] i = absurd i
IsIn-seen o (p ∷ os) (inl q) =
    ground (arith, ap (λ r. text_eq r.value' o.value') q, text_eq_refl o.value')
IsIn-seen o (p ∷ os) (inr i) = ground (arith, IsIn-seen o os i)

pub find_value-menu :
    (o : AspectRatio) (os : List AspectRatio)
    → IsMenu os
    → IsIn o os
    → find_value o.value' os ≡ some o
unfolding find_value
find_value-menu o [] m i = absurd i
find_value-menu o (p ∷ os) (c, h, m) (inl q) =
    ap (λ t. if t then some p else find_value o.value' os)
      (ap (λ r. text_eq r.value' o.value') q ∙ text_eq_refl o.value')
    ∙ ap some q
find_value-menu o (p ∷ os) (c, h, m) (inr i) = elim (Bool-cases (text_eq p.value' o.value')) [
  | inl e ↦
      ground
        (arith, h, IsIn-seen o os i, ap (λ v. is_seen v os) (text_eq_sound p.value' o.value' e))
  | inr e ↦ ap (λ t. if t then some p else find_value o.value' os) e ∙ find_value-menu o os m i
]
