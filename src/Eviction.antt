-- ===== src/Eviction.antt =====
-- One pass of infra/eviction.py, `run_eviction_pass`, over the file store. The order in which SQLite
-- answers `ORDER BY last_accessed_at` is a parameter; the pass runs without other tasks in between.
pub mod Counts
pub mod Pinned
pub mod Sums
pub mod Cap
mod Tests
use openai_api_bridge.Prelude.{
  ℕ, zero, suc, ◌+◌, ◌-◌, Bool, true, false, Option, none, some, List, [], ◌∷◌, ◌&&◌, ◌||◌, not,
  ◌==◌, ltb, leb, if◌then◌else◌, length, take, Text,
}
use openai_api_bridge.FileStore.{FileMetadata, FileStore, delete_many, total_byte_size}

abbrev pub lru_scan_chunk : ℕ
lru_scan_chunk = 1000

-- `WHERE pinned = 0`
unfoldable pub unpinned : List FileMetadata → List FileMetadata
unpinned [] = []
unpinned (r ∷ rows) = if r.pinned then unpinned rows else r ∷ unpinned rows

-- the ids `WHERE pinned = 0 AND created_at < now - retention_seconds`
unfoldable pub expired : ℕ → ℕ → List FileMetadata → List Text
expired now retention_seconds [] = []
expired now retention_seconds (r ∷ rows) =
    let rest = expired now retention_seconds rows in
    if not r.pinned && ltb (r.created_at + retention_seconds) now then r.id ∷ rest else rest

-- the loop over the candidates: the victims, and the total without them. A total below zero is as
-- good as zero: the code only asks whether it is above the cap.
unfoldable pub pick : ℕ → ℕ → List FileMetadata → List Text × ℕ
pick max_cache_bytes total [] = ([], total)
pick max_cache_bytes total (r ∷ candidates) =
    let (victims, left) = pick max_cache_bytes (total - r.byte_size) candidates in
    if leb total max_cache_bytes then ([], total) else (r.id ∷ victims, left)

abbrev pub counted : ℕ → Option (FileStore × ℕ) → Option (FileStore × ℕ)
counted n none = none
counted n (some (s, m)) = some (s, n + m)

abbrev pub with_ttl : ℕ → Option (FileStore × ℕ) → Option (FileStore × ℕ × ℕ)
with_ttl n none = none
with_ttl n (some (s, m)) = some (s, n, m)

module _ (order : List FileMetadata → List FileMetadata) (unlinks : Text → Bool) where
  unfoldable pub candidates : FileStore → List FileMetadata
  unfolding unpinned
  candidates s = take lru_scan_chunk (order (unpinned s.rows))

  -- the LRU loop, none where the fuel runs out
  unfoldable pub evict_lru : ℕ → ℕ → ℕ → FileStore → Option (FileStore × ℕ)
  unfolding candidates pick
  evict_lru zero max_cache_bytes total s = none
  evict_lru (suc fuel) max_cache_bytes total s =
      let found = candidates s in
      let chosen = pick max_cache_bytes total found in
      let deleted = delete_many unlinks chosen.0 s in
      let more = evict_lru fuel max_cache_bytes chosen.1 deleted.0 in
      if leb total max_cache_bytes || length found == 0
      then some (s, 0)
      else if ltb (length chosen.0) (length found)
      then some deleted
      else counted deleted.1 more

  -- the store after the pass, and how many files each sweep deleted
  unfoldable pub run_eviction_pass : ℕ → ℕ → ℕ → FileStore → Option (FileStore × ℕ × ℕ)
  unfolding evict_lru expired
  run_eviction_pass now retention_seconds max_cache_bytes s =
      let swept = delete_many unlinks (expired now retention_seconds s.rows) s in
      let total = total_byte_size swept.0.rows in
      with_ttl swept.1 (evict_lru (suc (length swept.0.rows)) max_cache_bytes total swept.0)
