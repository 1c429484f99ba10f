-- ===== src/JsonBody/Splice.antt =====
-- Where the values of a body are after a splice.
use mathlib.Core.Path.{subst}
use openai_api_bridge.Prelude.{
  ℕ, ◌+◌, ◌-◌, ◌≤◌, ◌<◌, ◌≡◌, refl, ap, ◌∙◌, ◌⊎◌, inl, inr, true, false, Option, none, some, List,
  [], ◌∷◌, ◌++◌, ltb, ltb→lt, ◌==◌, length, drop, Text, Bool-cases, arith,
}
use openai_api_bridge.JsonBody.{Edit, slice, splice, shift, replacement, new_length, moved, shifted}
use openai_api_bridge.JsonBody.Slices.{
  length-slice, slice_past, slice_first, slice_within, slice-slice, slice-drop,
}

-- the edits lie one after the other in the source, from `pos` on, and none is empty
abbrev pub AreOrdered : ℕ → Text → List Edit → Type 0
AreOrdered pos source [] = pos ≤ length source
AreOrdered pos source (e ∷ es) =
    (pos ≤ e.start) × (e.start < e.stop) × (e.stop ≤ length source) × AreOrdered e.stop source es

-- the span is that of an edit, or lies outside of all of them
abbrev pub IsApart : ℕ → ℕ → List Edit → Type 0
IsApart s t [] = Unit
IsApart s t (e ∷ es) =
    ((t ≤ e.start) ⊎ (e.stop ≤ s) ⊎ ((s ≡ e.start) × (t ≡ e.stop))) × IsApart s t es

-- the text that the splice has for the span
abbrev pub replaced_by : Option Text → Text → Text
replaced_by none old = old
replaced_by (some new) old = new

-- no edit from a later position starts here
replacement-none :
    (pos s : ℕ) (source : Text) (es : List Edit)
    → s < pos
    → AreOrdered pos source es
    → replacement es s ≡ none
unfolding replacement
replacement-none pos s source [] h o = refl
replacement-none pos s source (e ∷ es) h (a, b, c, o) =
    let rest = replacement-none e.stop s source es (omega (arith, h, a, b)) o in
    ground (arith, h, a, rest)

-- what is taken away before a span lies before it
shift-removed :
    (pos s t : ℕ) (source : Text) (es : List Edit)
    → pos ≤ s
    → s < t
    → AreOrdered pos source es
    → IsApart s t es
    → pos + (shift es s).1 ≤ s
unfolding shift
shift-removed pos s t source [] h k o a = omega (arith, h)
shift-removed pos s t source (e ∷ es) h k (p, q, r, o) (a, as') =
    elim (Bool-cases (ltb e.start s)) [
      | inl b ↦
          let stops : e.stop ≤ s = ground (arith, ltb→lt e.start s b, a, k) in
          let ih = shift-removed e.stop s t source es stops k o as' in
          ground (arith, b, ih, stops, p, q)
      | inr b ↦ ground (arith, b, h)
    ]

-- what a span reads after the splice from `pos` on, for a shift and a replacement
abbrev Reads : ℕ → ℕ → ℕ → Text → List Edit → ℕ × ℕ → Option Text → Type 0
Reads pos s t source es sh rep =
    slice (moved s sh - pos) ((moved s sh - pos) + new_length (t - s) rep) (splice pos source es)
    ≡ replaced_by rep (slice s t source)

slice_past_two :
    (x y z : Text) (n m i j : ℕ)
    → i ≡ length x + (length y + n)
    → j ≡ length x + (length y + m)
    → slice i j (x ++ (y ++ z)) ≡ slice n m z
slice_past_two x y z n m i j e f =
    ap (λ k. slice k j (x ++ (y ++ z))) e
    ∙ ap (λ k. slice (length x + (length y + n)) k (x ++ (y ++ z))) f
    ∙ slice_past x (y ++ z) (length y + n) (length y + m)
    ∙ slice_past y z n m

module _ (pos s t : ℕ) (source : Text) (e : Edit) (es : List Edit) (from : pos ≤ e.start)
    (some_text : e.start < e.stop) (fits : e.stop ≤ length source) (here : pos ≤ s)
    (nonempty : s < t) (within : t ≤ length source) where
  head_length : length (slice pos e.start source) ≡ e.start - pos
  head_length = length-slice pos e.start source (omega (arith, some_text, fits))

  -- the span lies after the edit
  Reads-after :
      (sh : ℕ × ℕ) (rep : Option Text)
      → e.stop + sh.1 ≤ s
      → Reads e.stop s t source es sh rep
      → Reads pos s t source (e ∷ es) (length e.encoded + sh.0, (e.stop - e.start) + sh.1) rep
  unfolding splice
  Reads-after (a, r) rep h ih =
      slice_past_two (slice pos e.start source) e.encoded (splice e.stop source es)
        (moved s (a, r) - e.stop) ((moved s (a, r) - e.stop) + new_length (t - s) rep) _ _
        (omega (arith, head_length, h, from, some_text))
        (omega (arith, head_length, h, from, some_text))
      ∙ ih

  -- the span is the edit's
  Reads-at : s ≡ e.start → Reads pos s t source (e ∷ es) (0, 0) (some e.encoded)
  unfolding splice
  Reads-at p =
      let i : moved s (0, 0) - pos ≡ length (slice pos e.start source) + 0 =
        omega (arith, head_length, p) in
      let j : (moved s (0, 0) - pos) + length e.encoded
          ≡ length (slice pos e.start source) + length e.encoded =
        omega (arith, head_length, p) in
      ap
        (λ k.
          slice k ((moved s (0, 0) - pos) + length e.encoded)
            (slice pos e.start source ++ (e.encoded ++ splice e.stop source es)))
        i
      ∙ ap
          (λ k.
            slice (length (slice pos e.start source) + 0) k
              (slice pos e.start source ++ (e.encoded ++ splice e.stop source es)))
          j
      ∙ slice_past (slice pos e.start source) (e.encoded ++ splice e.stop source es) 0
          (length e.encoded)
      ∙ slice_first e.encoded (splice e.stop source es)

  -- the span lies before the edit
  Reads-before : t ≤ e.start → Reads pos s t source (e ∷ es) (0, 0) none
  unfolding splice
  Reads-before h =
      let i : moved s (0, 0) - pos ≡ s - pos = omega arith in
      let j : (moved s (0, 0) - pos) + (t - s) ≡ t - pos = omega (arith, here, nonempty) in
      ap
        (λ k.
          slice k ((moved s (0, 0) - pos) + (t - s))
            (slice pos e.start source ++ (e.encoded ++ splice e.stop source es)))
        i
      ∙ ap
          (λ k.
            slice (s - pos) k (slice pos e.start source ++ (e.encoded ++ splice e.stop source es)))
          j
      ∙ slice_within (slice pos e.start source) (e.encoded ++ splice e.stop source es) (s - pos)
          (t - pos) (omega (arith, nonempty)) (omega (arith, head_length, h, here))
      ∙ slice-slice pos e.start s t source here (omega (arith, nonempty)) h

  -- by where the span is
  Reads-placed :
      AreOrdered e.stop source es
      → (t ≤ e.start) ⊎ (e.stop ≤ s) ⊎ ((s ≡ e.start) × (t ≡ e.stop))
      → IsApart s t es
      → (e.stop ≤ s → Reads e.stop s t source es (shift es s) (replacement es s))
      → (ltb e.start s ≡ true) ⊎ (ltb e.start s ≡ false)
      → (e.start == s ≡ true) ⊎ (e.start == s ≡ false)
      → Reads pos s t source (e ∷ es) (shift (e ∷ es) s) (replacement (e ∷ es) s)
  unfolding shift replacement
  Reads-placed o a as' ih (inl b) c =
      let stops : e.stop ≤ s = ground (arith, ltb→lt e.start s b, a, nonempty) in
      let sh : (length e.encoded + (shift es s).0, (e.stop - e.start) + (shift es s).1)
          ≡ shift (e ∷ es) s =
        ground (arith, b) in
      let rep : replacement es s ≡ replacement (e ∷ es) s = ground (arith, b) in
      subst (λ q. Reads pos s t source (e ∷ es) q (replacement (e ∷ es) s)) sh
        (subst
          (λ q.
            Reads pos s t source (e ∷ es)
              (length e.encoded + (shift es s).0, (e.stop - e.start) + (shift es s).1) q)
          rep
          (Reads-after (shift es s) (replacement es s)
            (shift-removed e.stop s t source es stops nonempty o as') (ih stops)))
  Reads-placed o a as' ih (inr b) (inl c) =
      let sh : (0, 0) ≡ shift (e ∷ es) s = ground (arith, b) in
      let rep : some e.encoded ≡ replacement (e ∷ es) s = ground (arith, c) in
      subst (λ q. Reads pos s t source (e ∷ es) q (replacement (e ∷ es) s)) sh
        (subst (λ q. Reads pos s t source (e ∷ es) (0, 0) q) rep (Reads-at (ground (arith, c))))
  Reads-placed o a as' ih (inr b) (inr c) =
      let sh : (0, 0) ≡ shift (e ∷ es) s = ground (arith, b) in
      let before : t ≤ e.start = ground (arith, b, c, a) in
      let gone : s < e.stop = omega (arith, some_text, before, nonempty) in
      let rest : replacement es s ≡ none = replacement-none e.stop s source es gone o in
      let rep : none ≡ replacement (e ∷ es) s = ground (arith, c, rest) in
      subst (λ q. Reads pos s t source (e ∷ es) q (replacement (e ∷ es) s)) sh
        (subst (λ q. Reads pos s t source (e ∷ es) (0, 0) q) rep (Reads-before before))

splice-Reads :
    (pos s t : ℕ) (source : Text) (es : List Edit)
    → pos ≤ s
    → s < t
    → t ≤ length source
    → AreOrdered pos source es
    → IsApart s t es
    → Reads pos s t source es (shift es s) (replacement es s)
unfolding splice shift replacement
splice-Reads pos s t source [] here nonempty within o a =
    let i : moved s (0, 0) - pos ≡ s - pos = omega arith in
    let j : (moved s (0, 0) - pos) + (t - s) ≡ t - pos = omega (arith, here, nonempty) in
    ap (λ k. slice k ((moved s (0, 0) - pos) + (t - s)) (drop pos source)) i
    ∙ ap (λ k. slice (s - pos) k (drop pos source)) j
    ∙ slice-drop pos s t source here
splice-Reads pos s t source (e ∷ es) here nonempty within (p, q, r, o) (a, as') =
    Reads-placed pos s t source e es p q r here nonempty within o a as'
      (λ stops. splice-Reads e.stop s t source es stops nonempty within o as')
      (Bool-cases (ltb e.start s)) (Bool-cases (e.start == s))

-- A splice puts the new values where the old ones were and leaves the others. If the edits lie one
-- after the other in the source and none is empty, a span that is not empty and lies in the source
-- either is that of an edit or meets none, then in the spliced text the shifted span reads the
-- edit's text, or what the span read in the source.
pub shifted-splice :
    (source : Text) (edits : List Edit) (s t : ℕ)
    → s < t
    → t ≤ length source
    → AreOrdered 0 source edits
    → IsApart s t edits
    → slice ((shifted edits (s, t)).0) ((shifted edits (s, t)).1) (splice 0 source edits)
      ≡ replaced_by (replacement edits s) (slice s t source)
unfolding shifted
shifted-splice source edits s t nonempty within o a =
    let start : ℕ = moved s (shift edits s) in
    let e : start ≡ start - 0 = omega arith in
    ap (λ k. slice k (k + new_length (t - s) (replacement edits s)) (splice 0 source edits)) e
    ∙ splice-Reads 0 s t source edits (omega arith) nonempty within o a
