-- ===== src/FileStore/Files.antt =====
-- The disk below the files directory, as infra/filestore.py writes to it: `_write_atomic`, `_discard`,
-- `_unlink_all`, `_stat_regular`. Which operations fail is the environment's choice.
use openai_api_bridge.Prelude.{
  ℕ, ◌==◌, Bool, true, false, Option, none, some, List, [], ◌∷◌, map, if◌then◌else◌, take, Text,
  text_eq,
}
use openai_api_bridge.Errors.{other, Outcome, returned, raised}

pub data Node : Type 0 where
  regular : Text → Node
  directory : Node

abbrev pub Disk : Type 0
Disk = Text → Option Node

unfoldable pub set : Text → Option Node → Disk → Disk
set path node disk p = if text_eq p path then node else disk p

-- an unlink whose error is suppressed; `unlinks` says where the file system lets it through
unfoldable pub discard : (Text → Bool) → Text → Disk → Disk
unfolding set
discard unlinks path disk = elim (disk path) [
  | some (regular bytes) ↦ if unlinks path then set path none disk else disk
  | some directory ↦ disk
  | none ↦ disk
]

unfoldable pub unlink_all : (Text → Bool) → List Text → Disk → Disk
unfolding discard
unlink_all unlinks [] disk = disk
unlink_all unlinks (path ∷ paths) disk = unlink_all unlinks paths (discard unlinks path disk)

-- the ways down to each `/` of a path that is not its first character, the shortest first
unfoldable pub above : Text → List Text
above [] = []
above (c ∷ path) =
    let further = map (λ way. c ∷ way) (above path) in if c == b'/' then [] ∷ further else further

-- the directories above a file, below the files directory
unfoldable pub parents : Text → List Text
unfolding above
parents [] = []
parents (c ∷ path) = map (λ way. c ∷ way) (above path)

-- `mkdir(parents=True, exist_ok=True)`: whether it went through; `mkdirs` says where the file system
-- lets a directory be made
unfoldable pub make_dirs : (Text → Bool) → List Text → Disk → Bool × Disk
unfolding set
make_dirs mkdirs [] disk = (true, disk)
make_dirs mkdirs (path ∷ paths) disk =
    let kept = make_dirs mkdirs paths disk in
    let made = make_dirs mkdirs paths (set path (some directory) disk) in
    elim (disk path) [
      | some directory ↦ kept
      | some (regular bytes) ↦ (false, disk)
      | none ↦ if mkdirs path then made else (false, disk)
    ]

-- where a write fails below a directory that is there: before anything is written, after `k` bytes
-- of the temporary file, at the rename, or nowhere
pub data Fault : Type 0 where
  no_temporary at_rename no_fault : Fault
  partial : ℕ → Fault

os_error : Outcome (Unit {0})
os_error = raised (other "OSError")

-- the `try` statement
unfoldable pub write_file :
    (Text → Bool) → Fault → Text → Text → Text → Disk → Outcome (Unit {0}) × Disk
unfolding set discard os_error
write_file unlinks no_temporary tmp_path final_path data' disk =
    (os_error, discard unlinks tmp_path disk)
write_file unlinks (partial k) tmp_path final_path data' disk =
    (os_error, discard unlinks tmp_path (set tmp_path (some (regular (take k data'))) disk))
write_file unlinks at_rename tmp_path final_path data' disk =
    (os_error, discard unlinks tmp_path (set tmp_path (some (regular data')) disk))
write_file unlinks no_fault tmp_path final_path data' disk = (
  returned tt,
  set tmp_path none
      (set final_path (some (regular data')) (set tmp_path (some (regular data')) disk)),
)

unfoldable pub write_below :
    (Text → Bool) → Fault → Text → Text → Text → Bool × Disk → Outcome (Unit {0}) × Disk
unfolding write_file os_error
write_below unlinks fault tmp_path final_path data' (true, disk) =
    write_file unlinks fault tmp_path final_path data' disk
write_below unlinks fault tmp_path final_path data' (false, disk) = (os_error, disk)

unfoldable pub write_atomic :
    (Text → Bool) → (Text → Bool) → Fault → Text → Text → Text → Disk → Outcome (Unit {0}) × Disk
unfolding make_dirs parents write_below
write_atomic mkdirs unlinks fault tmp_path final_path data' disk =
    write_below unlinks fault tmp_path final_path data' (make_dirs mkdirs (parents final_path) disk)

unfoldable pub is_regular : Option Node → Bool
is_regular (some (regular bytes)) = true
is_regular _ = false
