-- ===== src/Prelude/Decimal.antt =====
-- Decimal numerals: what Python's `\d` and `int` read, and what `str` writes.
use Prim.Native.Nat.{ℕ, zero, suc, ◌+◌, ◌-◌, ◌*◌, ◌/◌, ◌%◌, ◌≤◌, ◌<◌}
use mathlib.Core.Path.{◌≡◌, refl, ap, ◌∙◌}
use mathlib.Core.Logic.{inl, inr}
use mathlib.Core.Bool.{false, ◌&&◌}
use mathlib.Core.Option.{Option, none, some}
use mathlib.Core.List.{List, [], ◌∷◌, ◌++◌}
use native.Mathlib.Omega.{arith}
use openai_api_bridge.Prelude.Tests.{ltb, leb, if◌then◌else◌, Bool-cases, on_test}
use openai_api_bridge.Prelude.Lists.{length, length-append}
use openai_api_bridge.Prelude.Texts.{Text}

-- the zeros of the runs of ten decimal digits in Unicode
abbrev zeros : List ℕ
zeros =
    0x30 ∷ 0x660 ∷ 0x6f0 ∷ 0x7c0 ∷ 0x966 ∷ 0x9e6 ∷ 0xa66 ∷ 0xae6 ∷ 0xb66 ∷ 0xbe6 ∷ 0xc66 ∷ 0xce6
    ∷ 0xd66 ∷ 0xde6 ∷ 0xe50 ∷ 0xed0 ∷ 0xf20 ∷ 0x1040 ∷ 0x1090 ∷ 0x17e0 ∷ 0x1810 ∷ 0x1946 ∷ 0x19d0
    ∷ 0x1a80 ∷ 0x1a90 ∷ 0x1b50 ∷ 0x1bb0 ∷ 0x1c40 ∷ 0x1c50 ∷ 0xa620 ∷ 0xa8d0 ∷ 0xa900 ∷ 0xa9d0
    ∷ 0xa9f0 ∷ 0xaa50 ∷ 0xabf0 ∷ 0xff10 ∷ 0x104a0 ∷ 0x10d30 ∷ 0x11066 ∷ 0x110f0 ∷ 0x11136 ∷ 0x111d0
    ∷ 0x112f0 ∷ 0x11450 ∷ 0x114d0 ∷ 0x11650 ∷ 0x116c0 ∷ 0x11730 ∷ 0x118e0 ∷ 0x11950 ∷ 0x11c50
    ∷ 0x11d50 ∷ 0x11da0 ∷ 0x11f50 ∷ 0x16a60 ∷ 0x16ac0 ∷ 0x16b50 ∷ 0x1d7ce ∷ 0x1d7d8 ∷ 0x1d7e2
    ∷ 0x1d7ec ∷ 0x1d7f6 ∷ 0x1e140 ∷ 0x1e2f0 ∷ 0x1e4f0 ∷ 0x1e950 ∷ 0x1fbf0 ∷ []

unfoldable pub digit_from : List ℕ → ℕ → Option ℕ
digit_from [] c = none
digit_from (z ∷ zs) c = if leb z c && ltb c (z + 10) then some (c - z) else digit_from zs c

-- the value of a decimal digit
unfoldable pub digit : ℕ → Option ℕ
unfolding digit_from
digit c = digit_from zeros c

abbrev pub with_digit : Option ℕ → Text → List ℕ × Text → List ℕ × Text
with_digit none s rest = ([], s)
with_digit (some d) s rest = (d ∷ rest.0, rest.1)

-- the digits at the start of a text, at most `n`, and what follows them
unfoldable pub take_digits : ℕ → Text → List ℕ × Text
unfolding digit
take_digits zero s = ([], s)
take_digits (suc n) [] = ([], [])
take_digits (suc n) (c ∷ s) = let rest = take_digits n s in with_digit (digit c) (c ∷ s) rest

unfoldable pub value : ℕ → List ℕ → ℕ
value acc [] = acc
value acc (d ∷ ds) = value (acc * 10 + d) ds

-- the decimal digits of a number, with fuel
unfoldable pub digits_of : ℕ → ℕ → List ℕ
digits_of zero n = n % 10 ∷ []
digits_of (suc fuel) n = if ltb n 10 then n ∷ [] else digits_of fuel (n / 10) ++ n % 10 ∷ []

unfoldable pub numerals : List ℕ → Text
numerals [] = []
numerals (d ∷ ds) = (0x30 + d) ∷ numerals ds

-- `str(n)`: a number has fewer digits than its value
unfoldable pub show : ℕ → Text
unfolding digits_of numerals
show n = numerals (digits_of n n)

value-append : (acc : ℕ) (ds : List ℕ) (d : ℕ) → value acc (ds ++ d ∷ []) ≡ value acc ds * 10 + d
unfolding value
value-append acc [] d = refl
value-append acc (e ∷ ds) d = value-append (acc * 10 + e) ds d

smaller : (n fuel : ℕ) → ltb n 10 ≡ false → n ≤ suc fuel → n / 10 ≤ fuel
smaller n fuel b h = let g : 10 ≤ n = ground (arith, b) in omega (arith, g, h)

-- a number is what its digits say
pub value-digits_of : (fuel n : ℕ) → n ≤ fuel → value 0 (digits_of fuel n) ≡ n
unfolding value digits_of
value-digits_of zero n h = omega arith
value-digits_of (suc fuel) n h = elim (Bool-cases (ltb n 10)) [
  | inl b ↦ ground (arith, b)
  | inr b ↦
      let ih = value-digits_of fuel (n / 10) (smaller n fuel b h) in
      ap (λ t. value 0 (if t then n ∷ [] else digits_of fuel (n / 10) ++ n % 10 ∷ [])) b
      ∙ value-append 0 (digits_of fuel (n / 10)) (n % 10)
      ∙ omega (arith, ih)
]

abbrev pub AreDigits : List ℕ → Type 0
AreDigits [] = Unit
AreDigits (d ∷ ds) = (d < 10) × AreDigits ds

snoc-AreDigits : (ds : List ℕ) (d : ℕ) → AreDigits ds → d < 10 → AreDigits (ds ++ d ∷ [])
snoc-AreDigits [] d a h = (h, tt)
snoc-AreDigits (e ∷ ds) d (g, a) h = (g, snoc-AreDigits ds d a h)

pub digits_of-AreDigits : (fuel n : ℕ) → AreDigits (digits_of fuel n)
unfolding digits_of
digits_of-AreDigits zero n = (omega arith, tt)
digits_of-AreDigits (suc fuel) n =
    on_test AreDigits (ltb n 10) (λ b. (ground (arith, b), tt))
      (λ b.
        snoc-AreDigits (digits_of fuel (n / 10)) (n % 10) (digits_of-AreDigits fuel (n / 10))
          (omega arith))

tenth : (n p : ℕ) → n < 10 * p → n / 10 < p
tenth n p h = omega arith

abbrev pub pow10 : ℕ → ℕ
pow10 zero = 1
pow10 (suc k) = 10 * pow10 k

pub length-digits_of : (fuel k n : ℕ) → n < pow10 (suc k) → length (digits_of fuel n) ≤ suc k
unfolding digits_of
length-digits_of zero k n h = omega arith
length-digits_of (suc fuel) zero n h =
    on_test (λ ds. length ds ≤ 1) (ltb n 10) {x = n ∷ []}
      {y = digits_of fuel (n / 10) ++ n % 10 ∷ []} (λ b. omega arith) (λ b. ground (arith, b, h))
length-digits_of (suc fuel) (suc k) n h =
    on_test (λ ds. length ds ≤ suc (suc k)) (ltb n 10) {x = n ∷ []}
      {y = digits_of fuel (n / 10) ++ n % 10 ∷ []} (λ b. omega arith)
      (λ b. omega (
        arith,
        length-append (digits_of fuel (n / 10)) (n % 10 ∷ []),
        length-digits_of fuel k (n / 10) (tenth n (pow10 (suc k)) h),
      ))

pub digit-numeral : (d : ℕ) → d < 10 → digit (0x30 + d) ≡ some d
unfolding digit digit_from
digit-numeral d h = ground (arith, h)

pub take_digits-numerals :
    (n c : ℕ) (ds : List ℕ) (s : Text)
    → AreDigits ds
    → length ds ≤ n
    → digit c ≡ none
    → take_digits n (numerals ds ++ c ∷ s) ≡ (ds, c ∷ s)
unfolding take_digits numerals
take_digits-numerals zero c [] s a h e = refl
take_digits-numerals (suc n) c [] s a h e = ground (arith, e)
take_digits-numerals zero c (d ∷ ds) s a h e = ground arith
take_digits-numerals (suc n) c (d ∷ ds) s (b, a) h e =
    ground (arith, digit-numeral d b, take_digits-numerals n c ds s a (omega (arith, h)) e)

pub take_digits-numerals_end :
    (n : ℕ) (ds : List ℕ) → AreDigits ds → length ds ≤ n → take_digits n (numerals ds) ≡ (ds, [])
unfolding take_digits numerals
take_digits-numerals_end zero [] a h = refl
take_digits-numerals_end (suc n) [] a h = refl
take_digits-numerals_end zero (d ∷ ds) a h = ground arith
take_digits-numerals_end (suc n) (d ∷ ds) (b, a) h =
    ground (arith, digit-numeral d b, take_digits-numerals_end n ds a (omega (arith, h)))

digit_from-lt : (zs : List ℕ) (c d : ℕ) → digit_from zs c ≡ some d → d < 10
unfolding digit_from
digit_from-lt [] c d h = ground arith
digit_from-lt (z ∷ zs) c d h = ground (arith, h, digit_from-lt zs c d)

digit-lt : (c d : ℕ) → digit c ≡ some d → d < 10
unfolding digit
digit-lt c d h = digit_from-lt zeros c d h

with_digit-AreDigits :
    (o : Option ℕ) (s : Text) (rest : List ℕ × Text)
    → ((d : ℕ) → o ≡ some d → d < 10)
    → AreDigits rest.0
    → AreDigits (with_digit o s rest).0
with_digit-AreDigits none s rest h a = tt
with_digit-AreDigits (some d) s rest h a = (h d refl, a)

with_digit-length :
    (o : Option ℕ) (s : Text) (rest : List ℕ × Text) (n : ℕ)
    → length rest.0 ≤ n
    → length (with_digit o s rest).0 ≤ suc n
with_digit-length none s rest n h = omega arith
with_digit-length (some d) s rest n h = omega (arith, h)

pub take_digits-AreDigits : (n : ℕ) (s : Text) → AreDigits (take_digits n s).0
unfolding take_digits
take_digits-AreDigits zero s = tt
take_digits-AreDigits (suc n) [] = tt
take_digits-AreDigits (suc n) (c ∷ s) =
    with_digit-AreDigits (digit c) (c ∷ s) (take_digits n s) (λ d e. digit-lt c d e)
      (take_digits-AreDigits n s)

pub take_digits-length : (n : ℕ) (s : Text) → length (take_digits n s).0 ≤ n
unfolding take_digits
take_digits-length zero s = omega arith
take_digits-length (suc n) [] = omega arith
take_digits-length (suc n) (c ∷ s) =
    with_digit-length (digit c) (c ∷ s) (take_digits n s) n (take_digits-length n s)

abbrev pub scaled : ℕ → ℕ → ℕ
scaled b zero = b
scaled b (suc n) = scaled (10 * b) n

scaled-le : (b n : ℕ) → b ≤ scaled b n
scaled-le b zero = omega arith
scaled-le b (suc n) = omega (arith, scaled-le (10 * b) n)

pub value-lt :
    (acc b n : ℕ) (ds : List ℕ) → AreDigits ds → length ds ≤ n → acc < b → value acc ds < scaled b n
unfolding value
value-lt acc b n [] a h lt = omega (arith, lt, scaled-le b n)
value-lt acc b zero (d ∷ ds) a h lt = ground arith
value-lt acc b (suc n) (d ∷ ds) (e, a) h lt =
    value-lt (acc * 10 + d) (10 * b) n ds a (omega (arith, h)) (omega (arith, lt, e))
