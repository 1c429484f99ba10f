-- ===== src/Eviction/Cap.antt =====
-- That an eviction pass of infra/eviction.py gets the store under its cap, if deleting can.
use mathlib.Core.Path.{subst}
use openai_api_bridge.Prelude.{
  ℕ, zero, suc, ◌+◌, ◌≤◌, ◌<◌, ◌≡◌, refl, sym, ap, ◌∙◌, ◌⊎◌, inl, inr, Bool, true, Option, some,
  List, [], ◌∷◌, ◌||◌, ◌==◌, ltb, ltb→lt, leb, if◌then◌else◌, length, take, drop, Text, Bool-cases,
  arith,
}
use openai_api_bridge.FileStore.{FileMetadata, FileStore, others, delete_many, total_byte_size}
use openai_api_bridge.FileStore.Deletes.{delete_many_exact}
use openai_api_bridge.Eviction.{
  lru_scan_chunk, unpinned, expired, pick, counted, with_ttl, candidates, evict_lru,
  run_eviction_pass,
}
use openai_api_bridge.Eviction.Counts.{count, progress, count-others-le, over, some_found}
use openai_api_bridge.Eviction.Sums.{
  sum, Permutes, has_id, size, size_if, ids, count-sum, total-sum, sum-take, pinned_rows,
  sum-unpinned, prefix, suffix, sum-prefix, pick-ids, pick-left, pick-short, total-others,
  apart-sum, own-sum, sum-one,
}

-- the store is within the cap, or nothing that may be evicted is left
abbrev pub IsWithinCap : ℕ → FileStore → Type 0
IsWithinCap cap s = (total_byte_size s.rows ≤ cap) ⊎ (unpinned s.rows ≡ [])

abbrev pub IsUnique : List FileMetadata → Type 0
IsUnique rows = (i : Text) → count i rows ≤ 1

empty : (rows : List FileMetadata) → length rows ≡ 0 → rows ≡ []
empty [] h = refl
empty (r ∷ rows) h = ground arith

none_taken : (n : ℕ) (rows : List FileMetadata) → length (take (suc n) rows) ≡ 0 → length rows ≡ 0
none_taken n [] h = refl
none_taken n (r ∷ rows) h = ground arith

module _ (order : List FileMetadata → List FileMetadata) (permutes : Permutes order)
    (unlinks : Text → Bool) where
  abbrev found : FileStore → List FileMetadata
  found s = candidates order unlinks s

  -- every measure of the rows is its measure of those picked, of those left among the candidates, of
  -- those past the candidates and of those pinned
  parts :
      (f : FileMetadata → ℕ) (cap total : ℕ) (s : FileStore)
      → sum f s.rows
        ≡ sum f (prefix cap total (found s))
          + sum f (suffix cap total (found s))
          + sum f (drop lru_scan_chunk (order (unpinned s.rows)))
          + sum f (pinned_rows s.rows)
  unfolding candidates
  parts f cap total s = omega (
    arith,
    sum-unpinned f s.rows,
    permutes f (unpinned s.rows),
    sum-take f lru_scan_chunk (order (unpinned s.rows)),
    sum-prefix f cap total (found s),
  )

  found-le : (f : FileMetadata → ℕ) (s : FileStore) → sum f (found s) ≤ sum f s.rows
  unfolding candidates
  found-le f s = omega (
    arith,
    sum-unpinned f s.rows,
    permutes f (unpinned s.rows),
    sum-take f lru_scan_chunk (order (unpinned s.rows)),
  )

  -- what is tracked as the total is the total of the rows that are left
  picked-total :
      (cap : ℕ) (s : FileStore)
      → IsUnique s.rows
      → total_byte_size (others (pick cap (total_byte_size s.rows) (found s)).0 s.rows)
        ≡ (pick cap (total_byte_size s.rows) (found s)).1
  picked-total cap s unique =
      let total = total_byte_size s.rows in
      let picked = prefix cap total (found s) in
      let g = size_if (ids picked) in
      let once : (i : Text) → sum (has_id i) s.rows ≤ 1 =
        λ i. omega (arith, unique i, count-sum i s.rows) in
      let left =
        apart-sum picked (suffix cap total (found s))
          (λ i. omega (arith, once i, parts (has_id i) cap total s)) in
      let past =
        apart-sum picked (drop lru_scan_chunk (order (unpinned s.rows)))
          (λ i. omega (arith, once i, parts (has_id i) cap total s)) in
      let kept =
        apart-sum picked (pinned_rows s.rows)
          (λ i. omega (arith, once i, parts (has_id i) cap total s)) in
      let own = own-sum (ids picked) picked (λ i h. h) in
      let rest = total-others (ids picked) s.rows in
      let tracked =
        pick-left cap total (found s) (omega (arith, found-le size s, total-sum s.rows)) in
      ap (λ is. total_byte_size (others is s.rows)) (pick-ids cap total (found s))
      ∙ omega (arith, left, past, kept, own, rest, tracked, parts g cap total s)

  nothing_found : (s : FileStore) → length (found s) ≡ 0 → unpinned s.rows ≡ []
  unfolding candidates
  nothing_found s h =
      let empty_order = none_taken 999 (order (unpinned s.rows)) h in
      empty (unpinned s.rows) (
        omega (
          arith,
          empty_order,
          permutes (λ r. 1) (unpinned s.rows),
          sum-one (unpinned s.rows),
          sum-one (order (unpinned s.rows)),
        ))

  abbrev EndsWithin : ℕ → Option (FileStore × ℕ) → Type 0
  EndsWithin cap o = (s : FileStore) × (n : ℕ) × (o ≡ some (s, n)) × IsWithinCap cap s

  counted-EndsWithin :
      (cap n : ℕ) (o : Option (FileStore × ℕ)) → EndsWithin cap o → EndsWithin cap (counted n o)
  counted-EndsWithin cap n o (s, m, q, within) = (s, n + m, ap (counted n) q, within)

  stop-EndsWithin :
      (cap : ℕ) (s : FileStore)
      → (leb (total_byte_size s.rows) cap || length (found s) == 0) ≡ true
      → IsWithinCap cap s
  stop-EndsWithin cap s q = elim (Bool-cases (leb (total_byte_size s.rows) cap)) [
    | inl b ↦ inl (ground (arith, b))
    | inr b ↦ inr (nothing_found s (ground (arith, b, q)))
  ]

  delete-rows :
      (is : List Text) (s : FileStore) → (delete_many unlinks is s).0.rows ≡ others is s.rows
  delete-rows is s = (delete_many_exact unlinks is s []).0

  delete-IsUnique :
      (is : List Text) (s : FileStore)
      → IsUnique s.rows
      → IsUnique (delete_many unlinks is s).0.rows
  delete-IsUnique is s unique =
      subst IsUnique (sym (delete-rows is s))
        (λ i. omega (arith, unique i, count-others-le i is s.rows))

  found-count : (i : Text) (s : FileStore) → count i (found s) ≤ count i s.rows
  found-count i s = omega (arith, found-le (has_id i) s, count-sum i s.rows, count-sum i (found s))

  evict_lru-EndsWithin :
      (fuel cap : ℕ) (s : FileStore) (total : ℕ)
      → total ≡ total_byte_size s.rows
      → length s.rows < fuel
      → IsUnique s.rows
      → EndsWithin cap (evict_lru order unlinks fuel cap total s)
  unfolding evict_lru
  evict_lru-EndsWithin zero cap s total e lt unique = ground arith
  evict_lru-EndsWithin (suc fuel) cap s total e lt unique =
      let chosen = pick cap total (found s) in
      let deleted = delete_many unlinks chosen.0 s in
      let more = evict_lru order unlinks fuel cap chosen.1 deleted.0 in
      let tail : Bool → Option (FileStore × ℕ) =
        λ b. if b then some deleted else counted deleted.1 more in
      let whole : Bool → Option (FileStore × ℕ) =
        λ b. if b then some (s, 0) else tail (ltb (length chosen.0) (length (found s))) in
      let tracked : chosen.1 ≡ total_byte_size deleted.0.rows =
        ap (λ t. (pick cap t (found s)).1) e
        ∙ sym (picked-total cap s unique)
        ∙ ap (λ t. total_byte_size (others (pick cap t (found s)).0 s.rows)) (sym e)
        ∙ ap total_byte_size (sym (delete-rows chosen.0 s)) in
      elim (Bool-cases (leb total cap || length (found s) == 0)) [
        | inl q ↦ (
          s,
          0,
          ap whole q,
          stop-EndsWithin cap s (ap (λ t. leb t cap || length (found s) == 0) (sym e) ∙ q),
        )
        | inr q ↦
            let shrinks : length deleted.0.rows < length s.rows =
              subst (λ rows. length rows < length s.rows) (sym (delete-rows chosen.0 s))
                (progress cap total s (found s) (λ j. found-count j s)
                  (over cap total (length (found s)) q)
                  (some_found cap total (length (found s)) q)) in
            subst (EndsWithin cap) (sym (ap whole q))
              (elim (Bool-cases (ltb (length chosen.0) (length (found s)))) [
                | inl b ↦ (
                  deleted.0,
                  deleted.1,
                  ap tail b,
                  inl (
                      subst (λ t. t ≤ cap) tracked
                        (pick-short cap total (found s)
                          (ltb→lt (length chosen.0) (length (found s)) b))),
                )
                | inr b ↦ subst (EndsWithin cap) (sym (ap tail b)) (
                    counted-EndsWithin cap deleted.1 more (
                      evict_lru-EndsWithin fuel cap deleted.0 chosen.1 tracked
                        (omega (arith, shrinks, lt)) (delete-IsUnique chosen.0 s unique)))
              ])
      ]

-- A pass ends with the store within its cap, or with no file left that may be evicted: only pinned
-- ones. It does so in as many rounds as there are rows, if the ids of the rows are unique and the
-- query returns the rows that it selects, in whatever order.
pub cap_is_enforced :
    (order : List FileMetadata → List FileMetadata) (unlinks : Text → Bool)
    (now retention_seconds max_cache_bytes : ℕ) (s : FileStore)
    → Permutes order
    → IsUnique s.rows
    → (s' : FileStore) × (ttl : ℕ) × (lru : ℕ) × (run_eviction_pass order unlinks now
          retention_seconds max_cache_bytes s
        ≡ some (s', ttl, lru))
      × IsWithinCap max_cache_bytes s'
unfolding run_eviction_pass
cap_is_enforced order unlinks now retention cap s permutes unique =
    let swept = delete_many unlinks (expired now retention s.rows) s in
    let (s', n, q, within) =
      evict_lru-EndsWithin order permutes unlinks (suc (length swept.0.rows)) cap swept.0
        (total_byte_size swept.0.rows) refl (omega arith)
        (delete-IsUnique order permutes unlinks (expired now retention s.rows) s unique) in
    (s', swept.1, n, ap (with_ttl swept.1) q, within)
