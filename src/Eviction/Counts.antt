-- ===== src/Eviction/Counts.antt =====
-- How often an id occurs among rows, and what the selections and deletions of infra/eviction.py do to
-- it.
use openai_api_bridge.Prelude.{
  ℕ, zero, suc, ◌-◌, ◌≤◌, ◌<◌, ◌≡◌, refl, sym, ap, ◌∙◌, inl, inr, true, false, Option, none, some,
  List, [], ◌∷◌, ◌||◌, ◌==◌, leb, if◌then◌else◌, length, take, Text, text_eq, text_eq_refl,
  text_eq_sound, Bool-cases, arith,
}
use openai_api_bridge.FileStore.{FileMetadata, FileStore, find_row, holds, others}
use openai_api_bridge.Eviction.{unpinned, expired, pick}

abbrev pub or_this : FileMetadata → Option FileMetadata → FileMetadata
or_this d none = d
or_this d (some r) = r

-- how many rows have the id `i`
unfoldable pub count : Text → List FileMetadata → ℕ
count i [] = 0
count i (r ∷ rows) = if text_eq r.id i then suc (count i rows) else count i rows

pub count-unpinned-le :
    (i : Text) (rows : List FileMetadata) → count i (unpinned rows) ≤ count i rows
unfolding count unpinned
count-unpinned-le i [] = omega arith
count-unpinned-le i (r ∷ rows) = ground (arith, count-unpinned-le i rows)

pub count-take-le :
    (i : Text) (n : ℕ) (rows : List FileMetadata) → count i (take n rows) ≤ count i rows
unfolding count
count-take-le i zero rows = omega arith
count-take-le i (suc n) [] = omega arith
count-take-le i (suc n) (r ∷ rows) = ground (arith, count-take-le i n rows)

pub count-others-le :
    (i : Text) (ids : List Text) (rows : List FileMetadata)
    → count i (others ids rows) ≤ count i rows
unfolding count others
count-others-le i ids [] = omega arith
count-others-le i ids (r ∷ rows) = ground (arith, count-others-le i ids rows)

pub first :
    (i : Text) (r x : FileMetadata) (rows : List FileMetadata)
    → find_row i (x ∷ rows) ≡ some r
    → text_eq x.id i ≡ true
    → x ≡ r
unfolding find_row
first i r x rows h q = ap (or_this r) (sym (ap (λ b. if b then some x else find_row i rows) q) ∙ h)

pub pinned-count :
    (i : Text) (r : FileMetadata) (rows : List FileMetadata)
    → find_row i rows ≡ some r
    → r.pinned ≡ true
    → count i rows ≤ 1
    → count i (unpinned rows) ≡ 0
unfolding count unpinned find_row
pinned-count i r [] h p le = ground arith
pinned-count i r (x ∷ rows) h p le = elim (Bool-cases (text_eq x.id i)) [
  | inl q ↦
      let e : x.pinned ≡ true = ap (λ y. y.pinned) (first i r x rows h q) ∙ p in
      ground (arith, q, e, count-unpinned-le i rows)
  | inr q ↦ ground (arith, q, pinned-count i r rows)
]

pub find_row-others-kept :
    (i : Text) (ids : List Text) (rows : List FileMetadata)
    → holds i ids ≡ false
    → find_row i (others ids rows) ≡ find_row i rows
unfolding find_row others
find_row-others-kept i ids [] h = refl
find_row-others-kept i ids (r ∷ rows) h =
    let ih = find_row-others-kept i ids rows h in
    elim (Bool-cases (text_eq r.id i)) [
      | inl q ↦ ground (arith, q, ap (λ j. holds j ids) (text_eq_sound r.id i q), h)
      | inr q ↦ ground (arith, q, ih)
    ]

pub holds-expired :
    (i : Text) (now retention : ℕ) (rows : List FileMetadata)
    → count i (unpinned rows) ≡ 0
    → holds i (expired now retention rows) ≡ false
unfolding holds expired count unpinned
holds-expired i now retention [] h = refl
holds-expired i now retention (r ∷ rows) h = ground (arith, h, holds-expired i now retention rows)

pub holds-pick :
    (i : Text) (cap total : ℕ) (rows : List FileMetadata)
    → count i rows ≡ 0
    → holds i (pick cap total rows).0 ≡ false
unfolding holds pick count
holds-pick i cap total [] h = refl
holds-pick i cap total (r ∷ rows) h = ground (arith, h, holds-pick i cap (total - r.byte_size) rows)

pub length-others-le :
    (ids : List Text) (rows : List FileMetadata) → length (others ids rows) ≤ length rows
unfolding others
length-others-le ids [] = omega arith
length-others-le ids (r ∷ rows) = ground (arith, length-others-le ids rows)

pub length-others-lt :
    (j : Text) (ids : List Text) (rows : List FileMetadata)
    → holds j ids ≡ true
    → 0 < count j rows
    → length (others ids rows) < length rows
unfolding others count
length-others-lt j ids [] h lt = ground arith
length-others-lt j ids (r ∷ rows) h lt = elim (Bool-cases (text_eq r.id j)) [
  | inl q ↦
      ground (arith, ap (λ k. holds k ids) (text_eq_sound r.id j q), h, length-others-le ids rows)
  | inr q ↦ ground (arith, q, length-others-lt j ids rows h, lt)
]

pub over : (cap total n : ℕ) → (leb total cap || n == 0) ≡ false → cap < total
over cap total n h = ground arith

pub some_found : (cap total n : ℕ) → (leb total cap || n == 0) ≡ false → 0 < n
some_found cap total n h = ground arith

-- a batch that is picked over the cap from some candidates deletes a row
pub progress :
    (cap total : ℕ) (s : FileStore) (found : List FileMetadata)
    → ((i : Text) → count i found ≤ count i s.rows)
    → cap < total
    → 0 < length found
    → length (others (pick cap total found).0 s.rows) < length s.rows
unfolding pick count holds
progress cap total s [] c lt g = ground arith
progress cap total s (r ∷ found) c lt g =
    length-others-lt r.id (pick cap total (r ∷ found)).0 s.rows
      (ground (arith, lt, text_eq_refl r.id)) (ground (arith, c r.id, text_eq_refl r.id))
