-- ===== src/FileStore/Reads.antt =====
-- Reading a stored file back, infra/filestore.py's `open_for_read`: what is served, what is reaped,
-- and which timestamps move.
use openai_api_bridge.Prelude.{
  ℕ, ◌+◌, ◌≡◌, refl, sym, ap, ◌∙◌, ◌⊎◌, inl, inr, Bool, true, false, Option, none, some, [], ◌∷◌,
  ltb, if◌then◌else◌, Text, text_eq, text_eq_refl, text_eq_sound, Bool-cases, Option-cases,
}
use mathlib.Core.Path.{subst}
use openai_api_bridge.FileStore.{
  is_regular, FileMetadata, FileStore, find_row, get_metadata, map_option, open_row,
  row_to_metadata, OpenedFile, touch_interval, update_row, touch, others, open_for_read,
}
use openai_api_bridge.FileStore.Rows.{find_row-update_row, find_row-others}

abbrev pub touched : ℕ → FileMetadata → FileMetadata
touched now m = record m {
  last_accessed_at =
      if ltb now (m.last_accessed_at + touch_interval) then m.last_accessed_at else now;
}

module _ (s : FileStore) (now : ℕ) (id : Text) where
  abbrev pub IsServed : Option OpenedFile × FileStore → Type 0
  IsServed r =
      (m : FileMetadata) × (get_metadata s id ≡ some m)
      × (is_regular (s.disk m.storage_path) ≡ true)
      × (r.0 ≡ some (record { path = m.storage_path; meta = m }))
      × (get_metadata r.1 id ≡ some (touched now m))

  abbrev pub IsAbsent : Option OpenedFile × FileStore → Type 0
  IsAbsent r =
      ((get_metadata s id ≡ none)
        ⊎ ((m : FileMetadata) × (get_metadata s id ≡ some m)
            × (is_regular (s.disk m.storage_path) ≡ false)))
      × (r.0 ≡ none)
      × (get_metadata r.1 id ≡ none)

  abbrev pub KeepsOthers : Option OpenedFile × FileStore → Text → Type 0
  KeepsOthers r j =
      get_metadata r.1 j ≡ (if text_eq id j then get_metadata r.1 id else get_metadata s j)

  abbrev stamp : FileMetadata → FileMetadata
  stamp r = record r { last_accessed_at = now }

  abbrev choose : FileMetadata → Bool → FileMetadata
  choose m b = record m { last_accessed_at = if b then m.last_accessed_at else now }

  touch-recent :
      (m : FileMetadata)
      → ltb now (m.last_accessed_at + touch_interval) ≡ true
      → touch s now id m ≡ s
  unfolding touch
  touch-recent m p = ap (λ b. if b then s else record s { rows = update_row stamp id s.rows }) p

  touch-old :
      (m : FileMetadata)
      → ltb now (m.last_accessed_at + touch_interval) ≡ false
      → touch s now id m ≡ record s { rows = update_row stamp id s.rows }
  unfolding touch
  touch-old m p = ap (λ b. if b then s else record s { rows = update_row stamp id s.rows }) p

  commute :
      (o : Option FileMetadata)
      → map_option row_to_metadata (map_option stamp o)
        ≡ map_option stamp (map_option row_to_metadata o)
  unfolding row_to_metadata
  commute none = refl
  commute (some r) = refl

  pull :
      (b : Bool) (o : Option FileMetadata)
      → map_option row_to_metadata (if b then none else o)
        ≡ (if b then none else map_option row_to_metadata o)
  pull true o = refl
  pull false o = refl

  touch-id :
      (m : FileMetadata)
      → get_metadata s id ≡ some m
      → get_metadata (touch s now id m) id ≡ some (touched now m)
  unfolding get_metadata touch row_to_metadata
  touch-id m h = elim (Bool-cases (ltb now (m.last_accessed_at + touch_interval))) [
    | inl p ↦
        ap (λ t. map_option row_to_metadata (find_row id t.rows)) (touch-recent m p)
        ∙ h
        ∙ sym (ap (λ b. some (choose m b)) p)
    | inr p ↦
        ap (λ t. map_option row_to_metadata (find_row id t.rows)) (touch-old m p)
        ∙ ap (map_option row_to_metadata) (find_row-update_row stamp (λ r. refl) id id s.rows)
        ∙ ap
            (λ b.
              map_option row_to_metadata
                (if b then map_option stamp (find_row id s.rows) else find_row id s.rows))
            (text_eq_refl id)
        ∙ commute (find_row id s.rows)
        ∙ ap (map_option stamp) h
        ∙ sym (ap (λ b. some (choose m b)) p)
  ]

  touch-other :
      (m : FileMetadata) (j : Text)
      → text_eq id j ≡ false
      → get_metadata (touch s now id m) j ≡ get_metadata s j
  unfolding get_metadata touch
  touch-other m j h = elim (Bool-cases (ltb now (m.last_accessed_at + touch_interval))) [
    | inl p ↦ ap (λ t. map_option row_to_metadata (find_row j t.rows)) (touch-recent m p)
    | inr p ↦
        ap (λ t. map_option row_to_metadata (find_row j t.rows)) (touch-old m p)
        ∙ ap (map_option row_to_metadata) (find_row-update_row stamp (λ r. refl) id j s.rows)
        ∙ ap
            (λ b.
              map_option row_to_metadata
                (if b then map_option stamp (find_row j s.rows) else find_row j s.rows))
            h
  ]

  reap :
      (j : Text)
      → get_metadata (record s { rows = others (id ∷ []) s.rows }) j
        ≡ (if text_eq id j then none else get_metadata s j)
  unfolding get_metadata
  reap j =
      ap (map_option row_to_metadata) (find_row-others id j s.rows)
      ∙ pull (text_eq id j) (find_row j s.rows)

  abbrev IsRead : Option OpenedFile × FileStore → Text → Type 0
  IsRead r j = (IsServed r ⊎ IsAbsent r) × KeepsOthers r j × (r.1.disk ≡ s.disk)

  IsRead-missing : (j : Text) → get_metadata s id ≡ none → IsRead (none, s) j
  IsRead-missing j h = elim (Bool-cases (text_eq id j)) [
    | inl p ↦ (
      inr (inl h, refl, h),
      ap (get_metadata s) (sym (text_eq_sound id j p))
          ∙ sym (ap (λ b. if b then get_metadata s id else get_metadata s j) p),
      refl,
    )
    | inr p ↦ (
      inr (inl h, refl, h),
      sym (ap (λ b. if b then get_metadata s id else get_metadata s j) p),
      refl,
    )
  ]

  same-or-kept :
      (t : FileStore) (j : Text)
      → (text_eq id j ≡ false → get_metadata t j ≡ get_metadata s j)
      → get_metadata t j ≡ (if text_eq id j then get_metadata t id else get_metadata s j)
  same-or-kept t j h = elim (Bool-cases (text_eq id j)) [
    | inl p ↦
        ap (get_metadata t) (sym (text_eq_sound id j p))
        ∙ sym (ap (λ b. if b then get_metadata t id else get_metadata s j) p)
    | inr p ↦ h p ∙ sym (ap (λ b. if b then get_metadata t id else get_metadata s j) p)
  ]

  touch-disk : (m : FileMetadata) → (touch s now id m).disk ≡ s.disk
  touch-disk m = elim (Bool-cases (ltb now (m.last_accessed_at + touch_interval))) [
    | inl p ↦ ap (λ t. t.disk) (touch-recent m p)
    | inr p ↦ ap (λ t. t.disk) (touch-old m p)
  ]

  abbrev pub reaped : FileStore
  reaped = record s { rows = others (id ∷ []) s.rows }

  reap-other : (j : Text) → text_eq id j ≡ false → get_metadata reaped j ≡ get_metadata s j
  reap-other j h = reap j ∙ ap (λ b. if b then none else get_metadata s j) h

  reap-id : get_metadata reaped id ≡ none
  reap-id = reap id ∙ ap (λ b. if b then none else get_metadata s id) (text_eq_refl id)

  abbrev pub served : FileMetadata → Option OpenedFile × FileStore
  served m = (some (record { path = m.storage_path; meta = m }), touch s now id m)

  IsRead-row :
      (m : FileMetadata) (j : Text)
      → get_metadata s id ≡ some m
      → IsRead (open_row s now id (some m)) j
  unfolding open_row
  IsRead-row m j h = elim (Bool-cases (is_regular (s.disk m.storage_path))) [
    | inl p ↦
        subst (λ r. IsRead r j) (sym (ap (λ b. if b then served m else (none, reaped)) p))
          (
            inl (m, h, p, refl, touch-id m h),
            same-or-kept (touch s now id m) j (touch-other m j),
            touch-disk m,
          )
    | inr p ↦
        subst (λ r. IsRead r j) (sym (ap (λ b. if b then served m else (none, reaped)) p))
          (inr (inr (m, h, p), refl, reap-id), same-or-kept reaped j (reap-other j), refl)
  ]

  -- `open_for_read` serves a file exactly if it has a row and its path holds a regular file; then the
  -- time of access moves, to now, only if it is at least 300 seconds old. Otherwise it reports the
  -- file as absent, and no row of that id is left. No other row and no byte on disk changes.
  pub open_for_read_exact :
      (j : Text)
      → (IsServed (open_for_read s now id) ⊎ IsAbsent (open_for_read s now id))
        × KeepsOthers (open_for_read s now id) j
        × ((open_for_read s now id).1.disk ≡ s.disk)
  unfolding open_for_read open_row
  open_for_read_exact j = elim (Option-cases (get_metadata s id)) [
    | inl h ↦ subst (λ r. IsRead r j) (sym (ap (open_row s now id) h)) (IsRead-missing j h)
    | inr (m, h) ↦ subst (λ r. IsRead r j) (sym (ap (open_row s now id) h)) (IsRead-row m j h)
  ]
