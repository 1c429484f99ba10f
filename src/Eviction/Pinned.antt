-- ===== src/Eviction/Pinned.antt =====
-- That an eviction pass of infra/eviction.py ends, and that it leaves pinned files alone.
use mathlib.Core.Path.{subst}
use openai_api_bridge.Prelude.{
  ℕ, zero, suc, ◌+◌, ◌≤◌, ◌<◌, ◌≡◌, sym, ap, ◌∙◌, inl, inr, Bool, true, false, Option, some, List,
  ◌||◌, ◌==◌, ltb, leb, if◌then◌else◌, length, Text, Bool-cases, arith,
}
use openai_api_bridge.FileStore.{
  FileMetadata, FileStore, find_row, holds, delete_many, total_byte_size,
}
use openai_api_bridge.FileStore.Deletes.{delete_many_exact}
use openai_api_bridge.Eviction.{
  lru_scan_chunk, unpinned, expired, pick, counted, with_ttl, candidates, evict_lru,
  run_eviction_pass,
}
use openai_api_bridge.Eviction.Counts.{
  count, count-unpinned-le, count-take-le, count-others-le, pinned-count, find_row-others-kept,
  holds-expired, holds-pick, over, some_found, progress,
}

-- what `ORDER BY` promises here: it returns the rows that it is given, each as often
abbrev pub Keeps : (List FileMetadata → List FileMetadata) → Type 0
Keeps order = (i : Text) (rows : List FileMetadata) → count i (order rows) ≡ count i rows

module _ (order : List FileMetadata → List FileMetadata) (keeps : Keeps order)
    (unlinks : Text → Bool) where
  candidates-unpinned :
      (i : Text) (s : FileStore)
      → count i (unpinned s.rows) ≡ 0
      → count i (candidates order unlinks s) ≡ 0
  unfolding candidates
  candidates-unpinned i s h = omega (
    arith,
    h,
    keeps i (unpinned s.rows),
    count-take-le i lru_scan_chunk (order (unpinned s.rows)),
  )

  candidates-count :
      (i : Text) (s : FileStore) → count i (candidates order unlinks s) ≤ count i s.rows
  unfolding candidates
  candidates-count i s = omega (
    arith,
    keeps i (unpinned s.rows),
    count-take-le i lru_scan_chunk (order (unpinned s.rows)),
    count-unpinned-le i s.rows,
  )

  -- the row of a pinned file, with its id unique
  abbrev IsSafe : Text → FileMetadata → List FileMetadata → Type 0
  IsSafe i r rows = (find_row i rows ≡ some r) × (count i rows ≤ 1)

  delete-IsSafe :
      (i : Text) (r : FileMetadata) (ids : List Text) (s : FileStore)
      → holds i ids ≡ false
      → IsSafe i r s.rows
      → IsSafe i r (delete_many unlinks ids s).0.rows
  delete-IsSafe i r ids s h (f, c) =
      subst (IsSafe i r) (sym ((delete_many_exact unlinks ids s i).0))
        (find_row-others-kept i ids s.rows h ∙ f, omega (arith, c, count-others-le i ids s.rows))

  abbrev EndsSafe : Text → FileMetadata → Option (FileStore × ℕ) → Type 0
  EndsSafe i r o = (s : FileStore) × (n : ℕ) × (o ≡ some (s, n)) × IsSafe i r s.rows

  counted-EndsSafe :
      (i : Text) (r : FileMetadata) (n : ℕ) (o : Option (FileStore × ℕ))
      → EndsSafe i r o
      → EndsSafe i r (counted n o)
  counted-EndsSafe i r n o (s, m, q, safe) = (s, n + m, ap (counted n) q, safe)

  evict_lru-EndsSafe :
      (i : Text) (r : FileMetadata) (fuel cap total : ℕ) (s : FileStore)
      → r.pinned ≡ true
      → length s.rows < fuel
      → IsSafe i r s.rows
      → EndsSafe i r (evict_lru order unlinks fuel cap total s)
  unfolding evict_lru
  evict_lru-EndsSafe i r zero cap total s p lt safe = ground arith
  evict_lru-EndsSafe i r (suc fuel) cap total s p lt (f, c) =
      let found = candidates order unlinks s in
      let chosen = pick cap total found in
      let deleted = delete_many unlinks chosen.0 s in
      let more = evict_lru order unlinks fuel cap chosen.1 deleted.0 in
      let tail : Bool → Option (FileStore × ℕ) =
        λ b. if b then some deleted else counted deleted.1 more in
      let whole : Bool → Option (FileStore × ℕ) =
        λ b. if b then some (s, 0) else tail (ltb (length chosen.0) (length found)) in
      let none_left : count i found ≡ 0 = candidates-unpinned i s (pinned-count i r s.rows f p c) in
      let safe' : IsSafe i r deleted.0.rows =
        delete-IsSafe i r chosen.0 s (holds-pick i cap total found none_left) (f, c) in
      elim (Bool-cases (leb total cap || length found == 0)) [
        | inl q ↦ (s, 0, ap whole q, (f, c))
        | inr q ↦
            let shrinks : length deleted.0.rows < length s.rows =
              subst (λ rows. length rows < length s.rows)
                (sym ((delete_many_exact unlinks chosen.0 s i).0))
                (progress cap total s found (λ j. candidates-count j s)
                  (over cap total (length found) q) (some_found cap total (length found) q)) in
            subst (EndsSafe i r) (sym (ap whole q))
              (elim (Bool-cases (ltb (length chosen.0) (length found))) [
                | inl b ↦ (deleted.0, deleted.1, ap tail b, safe')
                | inr b ↦ subst (EndsSafe i r) (sym (ap tail b)) (
                    counted-EndsSafe i r deleted.1 more (
                      evict_lru-EndsSafe i r fuel cap chosen.1 deleted.0 p
                        (omega (arith, shrinks, lt)) safe'))
              ])
      ]

-- A pass ends: the loop deletes a row each time, so as many rounds as there are rows are enough. A
-- pinned file, whose id no other row has, keeps its row, whatever its age and however far the store
-- is over its cap.
pub pinned_files_stay :
    (order : List FileMetadata → List FileMetadata) (unlinks : Text → Bool)
    (now retention_seconds max_cache_bytes : ℕ) (s : FileStore) (i : Text) (r : FileMetadata)
    → Keeps order
    → find_row i s.rows ≡ some r
    → count i s.rows ≤ 1
    → r.pinned ≡ true
    → (s' : FileStore) × (ttl : ℕ) × (lru : ℕ) × (run_eviction_pass order unlinks now
          retention_seconds max_cache_bytes s
        ≡ some (s', ttl, lru))
      × (find_row i s'.rows ≡ some r)
unfolding run_eviction_pass
pinned_files_stay order unlinks now retention cap s i r keeps f c p =
    let swept = delete_many unlinks (expired now retention s.rows) s in
    let safe =
      delete-IsSafe order keeps unlinks i r (expired now retention s.rows) s
        (holds-expired i now retention s.rows (pinned-count i r s.rows f p c)) (f, c) in
    let (s', n, q, (f', _)) =
      evict_lru-EndsSafe order keeps unlinks i r (suc (length swept.0.rows)) cap
        (total_byte_size swept.0.rows) swept.0 p (omega arith) safe in
    (s', swept.1, n, ap (with_ttl swept.1) q, f')
