-- ===== src/FileStore/Deletes.antt =====
-- The batched deletion of infra/filestore.py, `delete_many`, against one deletion of all the ids.
use openai_api_bridge.Prelude.{
  ℕ, zero, suc, ◌+◌, ◌≤◌, ◌≡◌, refl, sym, ap, ◌∙◌, inl, inr, Bool, Option, none, List, [], ◌∷◌,
  ◌++◌, ◌||◌, ◌&&◌, if◌then◌else◌, length, take, drop, Text, text_eq, text_eq_sound, text_eq_sym,
  Bool-cases, arith,
}
use mathlib.Core.Path.{subst}
use openai_api_bridge.FileStore.{
  Node, Disk, set, discard, unlink_all, is_regular, FileMetadata, FileStore, holds, selected,
  others, paths, delete_chunk, delete_chunks, delete_many,
}

-- what is at a path once it is unlinked
abbrev pub unlinked : Bool → Option Node → Option Node
unlinked goes node = if goes && is_regular node then none else node

holds-++ : (j : Text) (is ks : List Text) → holds j (is ++ ks) ≡ (holds j is || holds j ks)
unfolding holds
holds-++ j [] ks = refl
holds-++ j (i ∷ is) ks = ground (arith, holds-++ j is ks)

take-++-drop : (n : ℕ) (is : List Text) → take n is ++ drop n is ≡ is
take-++-drop zero is = refl
take-++-drop (suc n) [] = refl
take-++-drop (suc n) (i ∷ is) = ap (λ t. i ∷ t) (take-++-drop n is)

length-drop : (n : ℕ) (is : List Text) → length (drop n is) ≤ length is
length-drop zero is = omega arith
length-drop (suc n) [] = omega arith
length-drop (suc n) (i ∷ is) = omega (arith, length-drop n is)

module _ (is ks : List Text) where
  others-++ : (rows : List FileMetadata) → others (is ++ ks) rows ≡ others ks (others is rows)
  unfolding others
  others-++ [] = refl
  others-++ (r ∷ rows) = ground (arith, holds-++ r.id is ks, others-++ rows)

  length-selected-++ :
      (rows : List FileMetadata)
      → length (selected (is ++ ks) rows)
        ≡ length (selected is rows) + length (selected ks (others is rows))
  unfolding others selected
  length-selected-++ [] = refl
  length-selected-++ (r ∷ rows) = ground (arith, holds-++ r.id is ks, length-selected-++ rows)

  paths-selected-++ :
      (p : Text) (rows : List FileMetadata)
      → holds p (paths (selected (is ++ ks) rows))
        ≡ (holds p (paths (selected is rows)) || holds p (paths (selected ks (others is rows))))
  unfolding others selected paths holds
  paths-selected-++ p [] = refl
  paths-selected-++ p (r ∷ rows) = ground (arith, holds-++ r.id is ks, paths-selected-++ p rows)

discard-at :
    (unlinks : Text → Bool) (q p : Text) (d : Disk)
    → discard unlinks q d p ≡ (if text_eq q p then unlinked (unlinks p) (d p) else d p)
unfolding discard set is_regular
discard-at unlinks q p d = elim (Bool-cases (text_eq q p)) [
  | inl h ↦ let e = text_eq_sound q p h in ground (arith, h, text_eq_sym q p, ap d e, ap unlinks e)
  | inr h ↦ ground (arith, h, text_eq_sym q p)
]

unlinked-unlinked : (b : Bool) (n : Option Node) → unlinked b (unlinked b n) ≡ unlinked b n
unfolding is_regular
unlinked-unlinked b n = ground arith

unlink_all-at :
    (unlinks : Text → Bool) (p : Text) (ps : List Text) (d : Disk)
    → unlink_all unlinks ps d p ≡ (if holds p ps then unlinked (unlinks p) (d p) else d p)
unfolding unlink_all holds
unlink_all-at unlinks p [] d = refl
unlink_all-at unlinks p (q ∷ ps) d = ground (
  arith,
  discard-at unlinks q p d,
  unlink_all-at unlinks p ps (discard unlinks q d),
  unlinked-unlinked (unlinks p) (d p),
)

-- what a deletion of `ids` makes of the store, at the path `p`
abbrev pub IsDeletion : (Text → Bool) → List Text → FileStore → FileStore × ℕ → Text → Type 0
IsDeletion unlinks ids s r p =
    (r.0.rows ≡ others ids s.rows)
    × (r.1 ≡ length (selected ids s.rows))
    × (r.0.disk p ≡ (
        if holds p (paths (selected ids s.rows))
        then unlinked (unlinks p) (s.disk p)
        else s.disk p))

others-none : (rows : List FileMetadata) → others [] rows ≡ rows
unfolding others holds
others-none [] = refl
others-none (r ∷ rows) = ap (λ t. r ∷ t) (others-none rows)

selected-none : (rows : List FileMetadata) → selected [] rows ≡ []
unfolding selected holds
selected-none [] = refl
selected-none (r ∷ rows) = selected-none rows

module _ (unlinks : Text → Bool) (p : Text) where
  delete_chunk_exact :
      (ids : List Text) (s : FileStore) → IsDeletion unlinks ids s (delete_chunk unlinks ids s) p
  unfolding delete_chunk
  delete_chunk_exact ids s =
      (refl, refl, unlink_all-at unlinks p (paths (selected ids s.rows)) s.disk)

  delete-none : (s : FileStore) → IsDeletion unlinks [] s (s, 0) p
  unfolding holds paths
  delete-none s = (
    sym (others-none s.rows),
    sym (ap (length {A = FileMetadata}) (selected-none s.rows)),
    sym (
        ap (λ rs. if holds p (paths rs) then unlinked (unlinks p) (s.disk p) else s.disk p)
          (selected-none s.rows)),
  )

  delete-++ :
      (is ks : List Text) (s : FileStore) (first rest : FileStore × ℕ)
      → IsDeletion unlinks is s first p
      → IsDeletion unlinks ks first.0 rest p
      → IsDeletion unlinks (is ++ ks) s (rest.0, first.1 + rest.1) p
  delete-++ is ks s first rest (r, n, d) (r', n', d') = (
    r' ∙ ap (others ks) r ∙ sym (others-++ is ks s.rows),
    omega (arith, n, n', ap (λ rs. length (selected ks rs)) r, length-selected-++ is ks s.rows),
    ground (
      arith,
      d,
      d',
      ap (λ rs. holds p (paths (selected ks rs))) r,
      paths-selected-++ is ks p s.rows,
      unlinked-unlinked (unlinks p) (s.disk p),
    ),
  )

  delete_chunks_exact :
      (fuel size : ℕ) (ids : List Text) (s : FileStore)
      → length ids ≤ fuel
      → IsDeletion unlinks ids s (delete_chunks fuel unlinks (suc size) ids s) p
  unfolding delete_chunks
  delete_chunks_exact fuel size [] s h = delete-none s
  delete_chunks_exact zero size (i ∷ ids) s h = ground arith
  delete_chunks_exact (suc fuel) size (i ∷ ids) s h =
      let first = delete_chunk unlinks (i ∷ take size ids) s in
      subst
        (λ is. IsDeletion unlinks is s (delete_chunks (suc fuel) unlinks (suc size) (i ∷ ids) s) p)
        (ap (λ t. i ∷ t) (take-++-drop size ids))
        (delete-++ (i ∷ take size ids) (drop size ids) s first
          (delete_chunks fuel unlinks (suc size) (drop size ids) first.0)
          (delete_chunk_exact (i ∷ take size ids) s)
          (delete_chunks_exact fuel size (drop size ids) first.0
            (omega (arith, h, length-drop size ids))))

-- Deleting in chunks of 400 is one deletion: the rows whose id is listed are gone and every other
-- row is kept, the count is the number of rows removed, and on disk the regular files of exactly the
-- removed rows are unlinked, where the file system lets the unlink through.
pub delete_many_exact :
    (unlinks : Text → Bool) (ids : List Text) (s : FileStore) (p : Text)
    → IsDeletion unlinks ids s (delete_many unlinks ids s) p
unfolding delete_many
delete_many_exact unlinks ids s p =
    delete_chunks_exact unlinks p (length ids) 399 ids s (omega arith)
