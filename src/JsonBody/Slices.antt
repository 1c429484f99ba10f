-- ===== src/JsonBody/Slices.antt =====
-- Slices of concatenations and of slices.
use openai_api_bridge.Prelude.{
  ℕ, zero, suc, ◌+◌, ◌-◌, ◌≤◌, ◌≡◌, refl, sym, ap, ◌∙◌, [], ◌∷◌, ◌++◌, length, take, drop, Text,
  arith,
}
use openai_api_bridge.JsonBody.{slice}

take-append : (n : ℕ) (x y : Text) → n ≤ length x → take n (x ++ y) ≡ take n x
take-append zero x y h = refl
take-append (suc n) [] y h = absurd (omega (arith, h))
take-append (suc n) (c ∷ x) y h = ap (λ t. c ∷ t) (take-append n x y (omega (arith, h)))

take-all : (x y : Text) → take (length x) (x ++ y) ≡ x
take-all [] y = refl
take-all (c ∷ x) y = ap (λ t. c ∷ t) (take-all x y)

drop-append : (n : ℕ) (x y : Text) → n ≤ length x → drop n (x ++ y) ≡ drop n x ++ y
drop-append zero x y h = refl
drop-append (suc n) [] y h = absurd (omega (arith, h))
drop-append (suc n) (c ∷ x) y h = drop-append n x y (omega (arith, h))

drop-past : (x y : Text) (n : ℕ) → drop (length x + n) (x ++ y) ≡ drop n y
drop-past [] y n = ap (λ k. drop k y) (omega arith)
drop-past (c ∷ x) y n =
    let e : suc (length x) + n ≡ suc (length x + n) = omega arith in
    ap (λ k. drop k (c ∷ x ++ y)) e ∙ drop-past x y n

drop_nothing : (n : ℕ) → drop {A = ℕ} n [] ≡ []
drop_nothing zero = refl
drop_nothing (suc n) = refl

take_nothing : (n : ℕ) → take {A = ℕ} n [] ≡ []
take_nothing zero = refl
take_nothing (suc n) = refl

drop-drop : (m n : ℕ) (x : Text) → drop n (drop m x) ≡ drop (m + n) x
drop-drop zero n x = ap (λ k. drop k x) (omega arith)
drop-drop (suc m) n [] = drop_nothing n ∙ sym (drop_nothing (suc m + n))
drop-drop (suc m) n (c ∷ x) =
    let e : suc (m + n) ≡ suc m + n = omega arith in drop-drop m n x ∙ ap (λ k. drop k (c ∷ x)) e

drop-take : (n m : ℕ) (x : Text) → drop n (take m x) ≡ take (m - n) (drop n x)
drop-take zero m x = ap (λ k. take k x) (omega arith)
drop-take (suc n) zero x =
    let e : 0 ≡ 0 - suc n = omega arith in ap (λ k. take k (drop (suc n) x)) e
drop-take (suc n) (suc m) [] = sym (take_nothing (suc m - suc n))
drop-take (suc n) (suc m) (c ∷ x) =
    let e : m - n ≡ suc m - suc n = omega arith in drop-take n m x ∙ ap (λ k. take k (drop n x)) e

take-take : (n m : ℕ) (x : Text) → n ≤ m → take n (take m x) ≡ take n x
take-take zero m x h = refl
take-take (suc n) zero x h = absurd (omega (arith, h))
take-take (suc n) (suc m) [] h = refl
take-take (suc n) (suc m) (c ∷ x) h = ap (λ t. c ∷ t) (take-take n m x (omega (arith, h)))

length-take : (n : ℕ) (x : Text) → n ≤ length x → length (take n x) ≡ n
length-take zero x h = refl
length-take (suc n) [] h = absurd (omega (arith, h))
length-take (suc n) (c ∷ x) h = ap suc (length-take n x (omega (arith, h)))

length-drop : (n : ℕ) (x : Text) → length (drop n x) ≡ length x - n
length-drop zero x = omega arith
length-drop (suc n) [] = omega arith
length-drop (suc n) (c ∷ x) = length-drop n x ∙ omega arith

pub length-slice : (a b : ℕ) (x : Text) → b ≤ length x → length (slice a b x) ≡ b - a
length-slice a b x h = length-take (b - a) (drop a x) (omega (arith, length-drop a x, h))

-- a slice of what follows `x`
pub slice_past : (x y : Text) (n m : ℕ) → slice (length x + n) (length x + m) (x ++ y) ≡ slice n m y
slice_past x y n m =
    ap (λ k. take k (drop (length x + n) (x ++ y))) (omega arith)
    ∙ ap (take (m - n)) (drop-past x y n)

pub slice_first : (x y : Text) → slice 0 (length x) (x ++ y) ≡ x
slice_first x y = ap (λ k. take k (x ++ y)) (omega arith) ∙ take-all x y

-- a slice that ends within `x`
pub slice_within : (x y : Text) (n m : ℕ) → n ≤ m → m ≤ length x → slice n m (x ++ y) ≡ slice n m x
slice_within x y n m h k =
    ap (take (m - n)) (drop-append n x y (omega (arith, h, k)))
    ∙ take-append (m - n) (drop n x) y (omega (arith, length-drop n x, h, k))

-- a slice of a slice
pub slice-slice :
    (a b s t : ℕ) (x : Text)
    → a ≤ s
    → s ≤ t
    → t ≤ b
    → slice (s - a) (t - a) (slice a b x) ≡ slice s t x
slice-slice a b s t x h k l =
    ap (take ((t - a) - (s - a))) (drop-take (s - a) (b - a) (drop a x))
    ∙ take-take ((t - a) - (s - a)) ((b - a) - (s - a)) (drop (s - a) (drop a x))
        (omega (arith, h, k, l))
    ∙ ap (take ((t - a) - (s - a))) (drop-drop a (s - a) x)
    ∙ ap (λ k'. take k' (drop (a + (s - a)) x)) (omega (arith, h, k))
    ∙ ap (λ n. take (t - s) (drop n x)) (omega (arith, h))

pub slice-drop : (a s t : ℕ) (x : Text) → a ≤ s → slice (s - a) (t - a) (drop a x) ≡ slice s t x
slice-drop a s t x h =
    ap (take ((t - a) - (s - a))) (drop-drop a (s - a) x)
    ∙ ap (λ k'. take k' (drop (a + (s - a)) x)) (omega (arith, h))
    ∙ ap (λ n. take (t - s) (drop n x)) (omega (arith, h))
