-- ===== src/Eviction/Tests.antt =====
-- A pass over a small store, and the theorem at it.
use openai_api_bridge.Prelude.{
  ℕ, String, ◌≤◌, ◌≡◌, refl, Bool, true, false, none, some, [], ◌∷◌, codes, text_eq, arith,
}
use openai_api_bridge.FileStore.{
  FileMetadata, FileStore, regular, find_row, delete_many, total_byte_size,
}
use openai_api_bridge.Eviction.{run_eviction_pass}
use openai_api_bridge.Eviction.Cap.{IsUnique, IsWithinCap, cap_is_enforced}
use openai_api_bridge.Eviction.Counts.{count}
use openai_api_bridge.Eviction.Pinned.{pinned_files_stay}

abbrev row : String → ℕ → Bool → FileMetadata
row id created_at pinned = record {
  id = codes id;
  storage_path = codes id;
  content_type = codes "image/png";
  byte_size = 10;
  kind = "image";
  source_backend = "fal";
  source_model = "flux";
  prompt_excerpt = none;
  created_at = created_at;
  last_accessed_at = created_at;
  pinned = pinned;
}

-- an expired file, an expired one that is pinned, and two recent ones
abbrev files : FileStore
files = record {
  rows = row "a" 0 false ∷ row "b" 0 true ∷ row "c" 90 false ∷ row "d" 95 false ∷ [];
  disk = λ p. some (regular (codes "x"));
}

-- at 100, with a retention of 50, a cap of 25 bytes leaves the pinned file and the most recent one
pass_rows :
    run_eviction_pass (λ rows. rows) (λ p. true) 100 50 25 files
    ≡ some (
      (delete_many
          (λ p. true)
          (codes "c" ∷ [])
          (delete_many (λ p. true) (codes "a" ∷ []) files).0).0,
      1,
      1,
    )
unfolding run_eviction_pass delete_many text_eq total_byte_size
pass_rows = refl

b_is_there : find_row (codes "b") files.rows ≡ some (row "b" 0 true)
unfolding find_row text_eq
b_is_there = refl

b_is_unique : count (codes "b") files.rows ≤ 1
unfolding count text_eq
b_is_unique = omega arith

pinned_files_stay_example :
    (s' : FileStore) × (ttl : ℕ) × (lru : ℕ) × (run_eviction_pass
        (λ rows. rows)
        (λ p. true)
        100
        50
        5
        files
      ≡ some (s', ttl, lru))
    × (find_row (codes "b") s'.rows ≡ some (row "b" 0 true))
pinned_files_stay_example =
    pinned_files_stay (λ rows. rows) (λ p. true) 100 50 5 files (codes "b") (row "b" 0 true)
      (λ i rows. refl) b_is_there b_is_unique refl

abbrev one_file : FileStore
one_file = record { rows = row "c" 90 false ∷ []; disk = λ p. some (regular (codes "x")) }

one_file-IsUnique : IsUnique one_file.rows
unfolding count
one_file-IsUnique i = ground arith

-- ten bytes against a cap of five
cap_is_enforced_example :
    (s' : FileStore) × (ttl : ℕ) × (lru : ℕ) × (run_eviction_pass
        (λ rows. rows)
        (λ p. true)
        100
        50
        5
        one_file
      ≡ some (s', ttl, lru))
    × IsWithinCap 5 s'
cap_is_enforced_example =
    cap_is_enforced (λ rows. rows) (λ p. true) 100 50 5 one_file (λ f rows. refl) one_file-IsUnique
