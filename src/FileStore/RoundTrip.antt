-- ===== src/FileStore/RoundTrip.antt =====
-- That `open_for_read` of infra/filestore.py reads back what `put` stored.
use openai_api_bridge.Prelude.{
  ℕ, ◌≡◌, ap, ◌∙◌, inl, inr, none, some, List, ◌∷◌, if◌then◌else◌, Text, text_eq_refl, arith,
}
use openai_api_bridge.Errors.{returned}
use openai_api_bridge.Media.Types.{sanitize_content_type_closed}
use openai_api_bridge.FileStore.{
  regular, Disk, set, is_regular, FileMetadata, FileStore, Asset, Putting, path_of, row_of, put,
  find_row, get_metadata, map_option, open_row, row_to_metadata, open_for_read,
}
use openai_api_bridge.FileStore.Put.{IsNew, sharded, put_is_atomic}
use openai_api_bridge.FileStore.Reads.{served, reaped, open_for_read_exact}

-- The row that `put` adds is read back unchanged.
row_of-read :
    (a : Asset) (e : Putting) (rows : List FileMetadata)
    → map_option row_to_metadata (find_row e.file_id (row_of a e ∷ rows)) ≡ some (row_of a e)
unfolding find_row row_of row_to_metadata
row_of-read a e rows =
    ap (λ b. map_option row_to_metadata (if b then some (row_of a e) else find_row e.file_id rows))
      (text_eq_refl e.file_id)
    ∙ ap (λ t. some (record (row_of a e) { content_type = t }))
        (sanitize_content_type_closed a.content_type).1

stored-regular :
    (a : Asset) (e : Putting) (d : Disk) (t : FileStore)
    → t.disk (path_of a e) ≡ set (path_of a e) (some (regular a.data')) d (path_of a e)
    → t.disk (path_of a e) ≡ some (regular a.data')
unfolding set
stored-regular a e d t h =
    h ∙ ap (λ b. if b then some (regular a.data') else d (path_of a e)) (text_eq_refl (path_of a e))

open-stored :
    (t : FileStore) (now : ℕ) (id bytes : Text) (m : FileMetadata)
    → get_metadata t id ≡ some m
    → t.disk m.storage_path ≡ some (regular bytes)
    → (open_for_read t now id).0 ≡ some (record { path = m.storage_path; meta = m })
unfolding open_for_read open_row is_regular
open-stored t now id bytes m g d =
    ap (λ o. (open_row t now id o).0) g
    ∙ ap (λ n. (if is_regular n then served t now id m else (none, reaped t now id)).0) d

-- A file whose `put` returned is opened under the id that it returned, on the state that `put`
-- leaves and at any reading of the clock, with the row that was written, its type sanitised, and with
-- exactly the bytes that were stored at its path.
pub put-open_for_read :
    (a : Asset) (e : Putting) (s : FileStore) (now : ℕ) (id : Text)
    → IsNew a e s
    → (put a e s).0 ≡ returned id
    → ((open_for_read (put a e s).1 now id).0
        ≡ some (record { path = path_of a e; meta = row_of a e }))
      × ((open_for_read (put a e s).1 now id).1.disk (path_of a e) ≡ some (regular a.data'))
unfolding get_metadata row_of
put-open_for_read a e s now id new h =
    let t : FileStore = (put a e s).1 in
    elim (put_is_atomic a e s new (path_of a e)) [
      | inl (q, d, r) ↦
          let same : id ≡ e.file_id = ground (arith, q, h) in
          let found : get_metadata t id ≡ some (row_of a e) =
            ap (get_metadata t) same
            ∙ ap (λ rows. map_option row_to_metadata (find_row e.file_id rows)) r
            ∙ row_of-read a e s.rows in
          let kept = stored-regular a e (sharded a e s) t d in
          (
            open-stored t now id a.data' (row_of a e) found kept,
            ap (λ f. f (path_of a e)) ((open_for_read_exact t now id id).2) ∙ kept,
          )
      | inr ((exc, q), _, _) ↦ ground (arith, q, h)
    ]
