-- ===== src/Aspect/Spelling.antt =====
-- The canonical spelling of a ratio in util/aspect.py is read back as the same ratio.
use openai_api_bridge.Prelude.{
  ℕ, zero, suc, ◌+◌, on_test, length-append, ◌≤◌, ◌<◌, ◌≡◌, refl, sym, ap, ◌∙◌, none, some, List,
  [], ◌∷◌, ◌++◌, ◌||◌, ltb, ◌==◌, if◌then◌else◌, length, Text, strip, is_space, digit, take_digits,
  value, digits_of, numerals, show, AreDigits, value-digits_of, digits_of-AreDigits,
  length-digits_of, take_digits-numerals, arith,
}
use Prim.Native.Nat.{◌/◌, ◌%◌}
use openai_api_bridge.Prelude.Texts.{lstrip}
use openai_api_bridge.Prelude.Decimal.{take_digits-numerals_end}
use openai_api_bridge.Json.{text}
use openai_api_bridge.Aspect.{
  AspectRatio, label_of, second_group, after_colon, first_group, of_groups, match_ratio, of_match,
  parse_text, parse_aspect_ratio,
}

-- the text of a ratio without a label
abbrev pub spelled : ℕ → ℕ → Text
spelled w h = show w ++ b':' ∷ show h

abbrev pub bare : ℕ → ℕ → AspectRatio
bare w h = record {
  value' = spelled w h;
  label = none;
  literal = spelled w h;
  width = w;
  height = h;
}

abbrev ratio : ℕ → ℕ → Text → AspectRatio
ratio w h literal = record {
  value' = spelled w h;
  label = none;
  literal = literal;
  width = w;
  height = h;
}

lstrip-numeral : (d : ℕ) (s : Text) → d < 10 → lstrip ((0x30 + d) ∷ s) ≡ (0x30 + d) ∷ s
unfolding lstrip is_space
lstrip-numeral d s h = ground (arith, h)

lstrip-numerals :
    (ds : List ℕ) (s : Text)
    → AreDigits ds
    → 0 < length ds
    → lstrip (numerals ds ++ s) ≡ numerals ds ++ s
unfolding numerals
lstrip-numerals [] s a h = ground arith
lstrip-numerals (d ∷ ds) s (b, a) h = lstrip-numeral d (numerals ds ++ s) b

append-nil : (s : Text) → s ++ [] ≡ s
append-nil [] = refl
append-nil (c ∷ s) = ap (λ t. c ∷ t) (append-nil s)

digits-nonempty : (fuel n : ℕ) → 0 < length (digits_of fuel n)
unfolding digits_of
digits-nonempty zero n = omega arith
digits-nonempty (suc fuel) n =
    on_test (λ ds. 0 < length ds) (ltb n 10) {x = n ∷ []}
      {y = digits_of fuel (n / 10) ++ n % 10 ∷ []} (λ b. omega arith)
      (λ b. omega (arith, length-append (digits_of fuel (n / 10)) (n % 10 ∷ [])))

lstrip-none : (hs : List ℕ) → AreDigits hs → 0 < length hs → lstrip (numerals hs) ≡ numerals hs
lstrip-none hs a p =
    ap lstrip (sym (append-nil (numerals hs)))
    ∙ lstrip-numerals hs [] a p
    ∙ append-nil (numerals hs)

second_group-numerals :
    (ws hs : List ℕ)
    → AreDigits hs
    → 0 < length hs
    → length hs ≤ 6
    → second_group ws (take_digits 6 (lstrip (numerals hs))) ≡ some (ws, hs, [])
second_group-numerals ws [] a p l = ground arith
second_group-numerals ws (h ∷ hs) a p l =
    ap (λ s. second_group ws (take_digits 6 s)) (lstrip-none (h ∷ hs) a p)
    ∙ ap (second_group ws) (take_digits-numerals_end 6 (h ∷ hs) a l)

colon_is_no_digit : digit b':' ≡ none
unfolding digit
colon_is_no_digit = refl

colon_is_no_space : (s : Text) → lstrip (b':' ∷ s) ≡ b':' ∷ s
unfolding lstrip is_space
colon_is_no_space s = refl

match-spelled :
    (ws hs : List ℕ)
    → AreDigits ws
    → AreDigits hs
    → 0 < length ws
    → 0 < length hs
    → length ws ≤ 6
    → length hs ≤ 6
    → match_ratio (numerals ws ++ b':' ∷ numerals hs) ≡ some (ws, hs, [])
unfolding match_ratio after_colon
match-spelled [] hs a a' p p' l l' = ground arith
match-spelled (w ∷ ws) hs a a' p p' l l' =
    ap (λ s. first_group (take_digits 6 s)) (lstrip-numerals (w ∷ ws) (b':' ∷ numerals hs) a p)
    ∙ ap first_group (take_digits-numerals 6 b':' (w ∷ ws) (numerals hs) a l colon_is_no_digit)
    ∙ ap (after_colon (w ∷ ws)) (colon_is_no_space (numerals hs))
    ∙ second_group-numerals (w ∷ ws) hs a' p' l'

of_match-bare :
    (literal : Text) (ws hs : List ℕ) (w h : ℕ)
    → value 0 ws ≡ w
    → value 0 hs ≡ h
    → 0 < w
    → 0 < h
    → of_match literal ws hs []
      ≡ some
          (record { value' = spelled w h; label = none; literal = literal; width = w; height = h })
unfolding of_match label_of strip
of_match-bare literal ws hs w h p q lt lt' =
    ap (λ v. if v == 0 || value 0 hs == 0 then none else some (ratio v (value 0 hs) literal)) p
    ∙ ap (λ v. if w == 0 || v == 0 then none else some (ratio w v literal)) q
    ∙ ground (arith, lt, lt')

-- A ratio of two positive numbers of at most six digits, written `W:H`, is read back as those numbers,
-- without a label, and is its own canonical value.
pub parse_aspect_ratio-spelled :
    (w h : ℕ)
    → 0 < w
    → 0 < h
    → w < 1000000
    → h < 1000000
    → parse_aspect_ratio (text (spelled w h)) ≡ some (bare w h)
unfolding parse_aspect_ratio parse_text show
parse_aspect_ratio-spelled w h lt lt' b b' =
    ap (of_groups (spelled w h)) (
      match-spelled (digits_of w w) (digits_of h h) (digits_of-AreDigits w w)
        (digits_of-AreDigits h h) (digits-nonempty w w) (digits-nonempty h h)
        (length-digits_of w 5 w b) (length-digits_of h 5 h b'))
    ∙ of_match-bare (spelled w h) (digits_of w w) (digits_of h h) w h
        (value-digits_of w w (omega arith)) (value-digits_of h h (omega arith)) lt lt'
