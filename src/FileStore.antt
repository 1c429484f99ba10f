-- ===== src/FileStore.antt =====
-- infra/filestore.py: the stored files, as rows of `generated_files` and the disk below the files
-- directory, whose paths are relative to it. Which file operations fail, which mkdirs and unlinks go through,
-- what the INSERT does, the random id and the clock are the environment's choice.
pub mod Files
pub mod Parents
pub mod Writes
pub mod Put
pub mod Rows
pub mod Reads
pub mod RoundTrip
pub mod Deletes
mod Tests
use openai_api_bridge.Prelude.{
  ℕ, zero, suc, ◌+◌, String, str_eq, Bool, true, false, Option, none, some, List, [], ◌∷◌, ◌++◌,
  ◌&&◌, ◌||◌, not, ltb, if◌then◌else◌, length, take, drop, Text, codes, text_eq,
}
pub use Files.{Node, regular, directory, Disk, Fault, no_temporary, at_rename, no_fault, partial}
unfoldable pub use Files.{
  set, discard, unlink_all, above, parents, make_dirs, write_file, write_below, write_atomic,
  is_regular,
}
use openai_api_bridge.Errors.{Exc, cancelled, other, Outcome, returned, raised}
use openai_api_bridge.Media.{sanitize_content_type, asset_extension}

pub record FileMetadata : Type 0 where
  pub id : Text
  pub storage_path : Text
  pub content_type : Text
  pub byte_size : ℕ
  pub kind : String
  pub source_backend : String
  pub source_model : String
  pub prompt_excerpt : Option Text
  pub created_at : ℕ
  pub last_accessed_at : ℕ
  pub pinned : Bool

pub record FileStore : Type 0 where
  pub rows : List FileMetadata
  pub disk : Disk

unfoldable pub disk_path : Text → Text → Text
disk_path file_id ext = take 2 file_id ++ b'/' ∷ take 2 (drop 2 file_id) ++ b'/' ∷ file_id ++ ext

unfoldable pub row_to_metadata : FileMetadata → FileMetadata
unfolding sanitize_content_type
row_to_metadata row = record row { content_type = sanitize_content_type row.content_type }

-- the arguments of `put`
pub record Asset : Type 0 where
  pub data' : Text
  pub content_type : Text
  pub kind : String
  pub source_backend : String
  pub source_model : String
  pub prompt_excerpt : Option Text
  pub pinned : Bool

-- what happens during a `put`: `interrupted` is a cancellation while the write runs; `insert` is
-- none, or what the INSERT raises, and whether the row has landed all the same
pub record Putting : Type 0 where
  pub file_id : Text
  pub fault : Fault
  pub interrupted : Bool
  pub insert : Option (Exc × Bool)
  pub now : ℕ
  pub mkdirs : Text → Bool
  pub unlinks : Text → Bool

-- `(prompt_excerpt or "")[:500] or None`
unfoldable pub excerpt : Option Text → Option Text
excerpt none = none
excerpt (some []) = none
excerpt (some (c ∷ t)) = some (take 500 (c ∷ t))

abbrev pub path_of : Asset → Putting → Text
path_of a e = disk_path e.file_id (asset_extension (sanitize_content_type a.content_type))

abbrev pub tmp_of : Text → Text
tmp_of path = path ++ codes ".tmp"

unfoldable pub row_of : Asset → Putting → FileMetadata
unfolding excerpt
row_of a e = record {
  id = e.file_id;
  storage_path = path_of a e;
  content_type = sanitize_content_type a.content_type;
  byte_size = length a.data';
  kind = a.kind;
  source_backend = a.source_backend;
  source_model = a.source_model;
  prompt_excerpt = excerpt a.prompt_excerpt;
  created_at = e.now;
  last_accessed_at = e.now;
  pinned = a.pinned;
}

-- the INSERT, and the `except` clause around it
unfoldable pub insert_row :
    Asset → Putting → FileStore → Option (Exc × Bool) → Outcome Text × FileStore
unfolding row_of discard
insert_row a e s none = (returned e.file_id, record s { rows = row_of a e ∷ s.rows })
insert_row a e s (some (exc, landed)) = (
  raised exc,
  record {
    rows = if landed then row_of a e ∷ s.rows else s.rows;
    disk = discard e.unlinks (path_of a e) s.disk;
  },
)

-- once the write is awaited to its end
unfoldable pub insert_written :
    Asset → Putting → FileStore → Outcome (Unit {0}) → Disk → Outcome Text × FileStore
unfolding insert_row
insert_written a e s (returned _) disk = insert_row a e (record s { disk = disk }) e.insert
insert_written a e s (raised exc) disk = (raised exc, record s { disk = disk })

-- `put`; its state is the one once the writing thread and its callback are done
unfoldable pub put : Asset → Putting → FileStore → Outcome Text × FileStore
unfolding write_atomic insert_written discard
put a e s =
    let path = path_of a e in
    let written = write_atomic e.mkdirs e.unlinks e.fault (tmp_of path) path a.data' s.disk in
    if not (str_eq a.kind "image" || str_eq a.kind "video")
    then (raised (other "ValueError"), s)
    else if e.interrupted
    then (raised cancelled, record s { disk = discard e.unlinks path written.1 })
    else insert_written a e s written.0 written.1

unfoldable pub find_row : Text → List FileMetadata → Option FileMetadata
find_row file_id [] = none
find_row file_id (r ∷ rows) = if text_eq r.id file_id then some r else find_row file_id rows

abbrev pub map_option : {A : Type 0} → (A → A) → Option A → Option A
map_option f none = none
map_option f (some a) = some (f a)

unfoldable pub get_metadata : FileStore → Text → Option FileMetadata
unfolding find_row row_to_metadata
get_metadata s file_id = map_option row_to_metadata (find_row file_id s.rows)

pub record OpenedFile : Type 0 where
  pub path : Text
  pub meta : FileMetadata

abbrev pub touch_interval : ℕ
touch_interval = 300

-- `UPDATE … WHERE id = ?`
unfoldable pub update_row :
    (FileMetadata → FileMetadata) → Text → List FileMetadata → List FileMetadata
update_row f file_id [] = []
update_row f file_id (r ∷ rows) =
    (if text_eq r.id file_id then f r else r) ∷ update_row f file_id rows

unfoldable pub touch : FileStore → ℕ → Text → FileMetadata → FileStore
unfolding update_row
touch s now file_id meta =
    if ltb now (meta.last_accessed_at + touch_interval)
    then s
    else record s { rows = update_row (λ r. record r { last_accessed_at = now }) file_id s.rows }

unfoldable pub set_pinned : FileStore → Text → Bool → FileStore
unfolding update_row
set_pinned s file_id pinned = record s {
  rows = update_row (λ r. record r { pinned = pinned }) file_id s.rows;
}

unfoldable pub holds : Text → List Text → Bool
holds file_id [] = false
holds file_id (i ∷ ids) = text_eq i file_id || holds file_id ids

-- the rows whose id is among `ids`, and the others
unfoldable pub selected : List Text → List FileMetadata → List FileMetadata
unfolding holds
selected ids [] = []
selected ids (r ∷ rows) = if holds r.id ids then r ∷ selected ids rows else selected ids rows

unfoldable pub others : List Text → List FileMetadata → List FileMetadata
unfolding holds
others ids [] = []
others ids (r ∷ rows) = if holds r.id ids then others ids rows else r ∷ others ids rows

-- `open_for_read`, once the row is fetched
unfoldable pub open_row : FileStore → ℕ → Text → Option FileMetadata → Option OpenedFile × FileStore
unfolding touch is_regular others
open_row s now file_id none = (none, s)
open_row s now file_id (some meta) =
    if is_regular (s.disk meta.storage_path)
    then (some (record { path = meta.storage_path; meta = meta }), touch s now file_id meta)
    else (none, record s { rows = others (file_id ∷ []) s.rows })

unfoldable pub open_for_read : FileStore → ℕ → Text → Option OpenedFile × FileStore
unfolding get_metadata open_row
open_for_read s now file_id = open_row s now file_id (get_metadata s file_id)

unfoldable pub paths : List FileMetadata → List Text
paths [] = []
paths (r ∷ rows) = r.storage_path ∷ paths rows

-- one chunk: the SELECT, the DELETE and the unlinks; where nothing is selected, the last two do
-- nothing
unfoldable pub delete_chunk : (Text → Bool) → List Text → FileStore → FileStore × ℕ
unfolding selected others unlink_all paths
delete_chunk unlinks chunk s = (
  record {
    rows = others chunk s.rows;
    disk = unlink_all unlinks (paths (selected chunk s.rows)) s.disk;
  },
  length (selected chunk s.rows),
)

-- the loop over the chunks of `size` ids, with fuel
unfoldable pub delete_chunks : ℕ → (Text → Bool) → ℕ → List Text → FileStore → FileStore × ℕ
unfolding delete_chunk
delete_chunks fuel unlinks size [] s = (s, 0)
delete_chunks zero unlinks size (i ∷ ids) s = (s, 0)
delete_chunks (suc fuel) unlinks size (i ∷ ids) s =
    let first = delete_chunk unlinks (take size (i ∷ ids)) s in
    let rest = delete_chunks fuel unlinks size (drop size (i ∷ ids)) first.0 in
    (rest.0, first.1 + rest.1)

abbrev pub delete_chunk_size : ℕ
delete_chunk_size = 400

unfoldable pub delete_many : (Text → Bool) → List Text → FileStore → FileStore × ℕ
unfolding delete_chunks
delete_many unlinks file_ids s =
    delete_chunks (length file_ids) unlinks delete_chunk_size file_ids s

-- `COALESCE(SUM(byte_size), 0)`
unfoldable pub total_byte_size : List FileMetadata → ℕ
total_byte_size [] = 0
total_byte_size (r ∷ rows) = r.byte_size + total_byte_size rows
