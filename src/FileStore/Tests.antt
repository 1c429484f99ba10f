-- ===== src/FileStore/Tests.antt =====
-- A stored image, and the theorems at it.
use openai_api_bridge.Prelude.{
  ◌≡◌, refl, ◌⊎◌, true, false, none, some, [], ◌∷◌, codes, text_eq, before, strip,
}
use openai_api_bridge.Errors.{returned}
use openai_api_bridge.Media.{sanitize_content_type, asset_extension}
use openai_api_bridge.FileStore.{
  regular, directory, no_fault, partial, FileStore, Asset, Putting, path_of, tmp_of, row_of, put,
  open_for_read, delete_many, total_byte_size, set_pinned, disk_path,
}
use openai_api_bridge.FileStore.Put.{IsNew, IsStored, IsUndone, put_is_atomic}
use openai_api_bridge.FileStore.Reads.{IsServed, IsAbsent, KeepsOthers, open_for_read_exact}
use openai_api_bridge.FileStore.RoundTrip.{put-open_for_read}
use openai_api_bridge.FileStore.Deletes.{IsDeletion, delete_many_exact}

abbrev picture : Asset
picture = record {
  data' = codes "abc";
  content_type = codes "Image/PNG";
  kind = "image";
  source_backend = "fal";
  source_model = "flux";
  prompt_excerpt = none;
  pinned = false;
}

abbrev calm : Putting
calm = record {
  file_id = codes "0123";
  fault = no_fault;
  interrupted = false;
  insert = none;
  now = 1000;
  mkdirs = λ p. true;
  unlinks = λ p. true;
}

abbrev vacant : FileStore
vacant = record { rows = []; disk = λ p. none }

calm-IsNew : IsNew picture calm vacant
calm-IsNew = record {
  path_is_free = refl;
  tmp_is_free = refl;
  path_unlinks = refl;
  tmp_unlinks = refl;
}

stored_at : path_of picture calm ≡ codes "01/23/0123.png"
unfolding disk_path asset_extension sanitize_content_type strip before text_eq
stored_at = refl

calm_returns : (put picture calm vacant).0 ≡ returned (codes "0123")
unfolding put disk_path text_eq asset_extension strip before sanitize_content_type
calm_returns = refl

-- a full disk leaves nothing behind
full_disk :
    (put picture (record calm { fault = partial 2 }) vacant).1.disk (tmp_of (path_of picture calm))
    ≡ none
unfolding put text_eq disk_path asset_extension sanitize_content_type strip before
full_disk = refl

-- but the directories that were made for it
its_directory :
    (put picture (record calm { fault = partial 2 }) vacant).1.disk (codes "01/23") ≡ some directory
unfolding put text_eq disk_path asset_extension sanitize_content_type strip before
its_directory = refl

put_is_atomic_example :
    IsStored picture calm vacant (put picture calm vacant) (codes "x")
    ⊎ IsUndone picture calm vacant (put picture calm vacant) (codes "x")
put_is_atomic_example = put_is_atomic picture calm vacant calm-IsNew (codes "x")

open_for_read_exact_example :
    (IsServed vacant 5 (codes "0123") (open_for_read vacant 5 (codes "0123"))
      ⊎ IsAbsent vacant 5 (codes "0123") (open_for_read vacant 5 (codes "0123")))
    × KeepsOthers vacant 5 (codes "0123") (open_for_read vacant 5 (codes "0123")) (codes "4")
    × ((open_for_read vacant 5 (codes "0123")).1.disk ≡ vacant.disk)
open_for_read_exact_example = open_for_read_exact vacant 5 (codes "0123") (codes "4")

put-open_for_read_example :
    ((open_for_read (put picture calm vacant).1 1400 (codes "0123")).0
      ≡ some (record { path = path_of picture calm; meta = row_of picture calm }))
    × ((open_for_read (put picture calm vacant).1 1400 (codes "0123")).1.disk (path_of picture calm)
        ≡ some (regular (codes "abc")))
put-open_for_read_example =
    put-open_for_read picture calm vacant 1400 (codes "0123") calm-IsNew calm_returns

abbrev two_rows : FileStore
two_rows = record {
  rows = row_of picture calm ∷ row_of picture (record calm { file_id = codes "4567" }) ∷ [];
  disk = λ p. some (regular (codes "abc"));
}

two_deleted : (delete_many (λ p. true) (codes "4567" ∷ codes "4567" ∷ []) two_rows).1 ≡ 1
unfolding delete_many row_of text_eq
two_deleted = refl

delete_many_exact_example :
    IsDeletion
      (λ p. true)
      (codes "4567" ∷ [])
      two_rows
      (delete_many (λ p. true) (codes "4567" ∷ []) two_rows)
      (codes "01/23/0123.png")
delete_many_exact_example =
    delete_many_exact (λ p. true) (codes "4567" ∷ []) two_rows (codes "01/23/0123.png")

two_rows_weigh : total_byte_size two_rows.rows ≡ 6
unfolding total_byte_size row_of
two_rows_weigh = refl

pinning :
    (set_pinned two_rows (codes "4567") true).rows
    ≡ row_of picture calm
      ∷ record (row_of picture (record calm { file_id = codes "4567" })) { pinned = true }
      ∷ []
unfolding set_pinned row_of text_eq
pinning = refl
