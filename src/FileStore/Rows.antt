-- ===== src/FileStore/Rows.antt =====
-- Finding a row of infra/filestore.py's table after an UPDATE or a DELETE of rows by id.
use openai_api_bridge.Prelude.{
  ◌≡◌, ap, inl, inr, none, List, [], ◌∷◌, if◌then◌else◌, Text, text_eq, text_eq_sound, text_eq_sym,
  Bool-cases, arith,
}
use openai_api_bridge.FileStore.{FileMetadata, find_row, map_option, update_row, holds, others}

pub find_row-update_row :
    (f : FileMetadata → FileMetadata)
    → ((r : FileMetadata) → (f r).id ≡ r.id)
    → (i j : Text) (rows : List FileMetadata)
    → find_row j (update_row f i rows)
      ≡ (if text_eq i j then map_option f (find_row j rows) else find_row j rows)
unfolding find_row update_row
find_row-update_row f k i j [] = ground arith
find_row-update_row f k i j (r ∷ rows) =
    let ih = find_row-update_row f k i j rows in
    elim (Bool-cases (text_eq r.id i)) [
      | inl p ↦
          let e = text_eq_sound r.id i p in
          ground (arith, p, ap (λ t. text_eq t j) (k r), ap (λ t. text_eq t j) e, ih)
      | inr p ↦ elim (Bool-cases (text_eq r.id j)) [
        | inl q ↦
            let e = text_eq_sound r.id j q in
            ground (arith, p, q, text_eq_sym i j, ap (λ t. text_eq t i) e)
        | inr q ↦ ground (arith, p, q, ih)
      ]
    ]

pub find_row-others :
    (i j : Text) (rows : List FileMetadata)
    → find_row j (others (i ∷ []) rows) ≡ (if text_eq i j then none else find_row j rows)
unfolding find_row others holds
find_row-others i j [] = ground arith
find_row-others i j (r ∷ rows) =
    let ih = find_row-others i j rows in
    elim (Bool-cases (text_eq i r.id)) [
      | inl p ↦ let e = text_eq_sound i r.id p in ground (arith, p, ap (λ t. text_eq t j) e, ih)
      | inr p ↦ elim (Bool-cases (text_eq r.id j)) [
        | inl q ↦ let e = text_eq_sound r.id j q in ground (arith, p, q, ap (text_eq i) e)
        | inr q ↦ ground (arith, p, q, ih)
      ]
    ]
