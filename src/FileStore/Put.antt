-- ===== src/FileStore/Put.antt =====
-- What `put` of infra/filestore.py leaves behind when it returns and when it raises, and that what it
-- stored is read back.
use openai_api_bridge.Prelude.{
  on_test, ◌≡◌, refl, sym, ap, ◌∙◌, ◌⊎◌, inl, inr, str_eq, Bool, true, false, not, Option, none,
  some, ◌∷◌, Text, codes, ◌||◌, arith,
}
use mathlib.Core.Path.{subst}
use openai_api_bridge.FileStore.Writes.{
  discard-absent, discard-set, write_file_cases, discard-cong, set-cong, longer_le,
}
use openai_api_bridge.FileStore.Parents.{
  made, IsLeft, make_dirs-made, make_dirs-IsLeft, make_dirs_apart,
}
use openai_api_bridge.Errors.{Exc, cancelled, other, Outcome, returned, raised}
use openai_api_bridge.FileStore.{
  Node, regular, Disk, set, discard, parents, make_dirs, write_below, write_atomic, FileStore,
  Asset, Putting, path_of, tmp_of, row_of, insert_row, insert_written, put,
}

insert_outcome :
    (o : Option (Exc × Bool))
    → (o ≡ none) ⊎ ((exc : Exc) × ((o ≡ some (exc, true)) ⊎ (o ≡ some (exc, false))))
insert_outcome none = inl refl
insert_outcome (some (exc, true)) = inr (exc, inl refl)
insert_outcome (some (exc, false)) = inr (exc, inr refl)

-- the path of the new file and its temporary name are free, and unlinks of the two go through
pub record IsNew (a : Asset) (e : Putting) (s : FileStore) : Type 0 where
  pub path_is_free : s.disk (path_of a e) ≡ none
  pub tmp_is_free : s.disk (tmp_of (path_of a e)) ≡ none
  pub path_unlinks : e.unlinks (path_of a e) ≡ true
  pub tmp_unlinks : e.unlinks (tmp_of (path_of a e)) ≡ true

-- the disk with the directories above the new file made
abbrev pub sharded : Asset → Putting → FileStore → Disk
sharded a e s = made (parents (path_of a e)) s.disk

abbrev pub IsUndone : Asset → Putting → FileStore → Outcome Text × FileStore → Text → Type 0
IsUndone a e s r p =
    ((exc : Exc) × (r.0 ≡ raised exc))
    × IsLeft (parents (path_of a e)) s.disk p (r.1.disk p)
    × ((r.1.rows ≡ s.rows) ⊎ ((exc : Exc) × (e.insert ≡ some (exc, true))))

abbrev pub IsStored : Asset → Putting → FileStore → Outcome Text × FileStore → Text → Type 0
IsStored a e s r p =
    (r.0 ≡ returned e.file_id)
    × (r.1.disk p ≡ set (path_of a e) (some (regular a.data')) (sharded a e s) p)
    × (r.1.rows ≡ row_of a e ∷ s.rows)

module _ (a : Asset) (e : Putting) (s : FileStore) (new : IsNew a e s) (p : Text) where
  abbrev attempt : Outcome (Unit {0}) × Disk
  attempt =
      write_atomic e.mkdirs e.unlinks e.fault (tmp_of (path_of a e)) (path_of a e) a.data' s.disk

  -- what `mkdir` answers, and the disk it leaves
  abbrev begun : Bool × Disk
  begun = make_dirs e.mkdirs (parents (path_of a e)) s.disk

  path_free : begun.1 (path_of a e) ≡ none
  path_free =
      make_dirs_apart e.mkdirs (path_of a e) (path_of a e) s.disk (omega arith) ∙ new.path_is_free

  tmp_free : begun.1 (tmp_of (path_of a e)) ≡ none
  tmp_free =
      make_dirs_apart e.mkdirs (path_of a e) (tmp_of (path_of a e)) s.disk
        (longer_le (path_of a e) (codes ".tmp"))
      ∙ new.tmp_is_free

  begun-IsLeft : {now : Option Node} → now ≡ begun.1 p → IsLeft (parents (path_of a e)) s.disk p now
  begun-IsLeft h =
      subst (IsLeft (parents (path_of a e)) s.disk p) (sym h)
        (make_dirs-IsLeft e.mkdirs p (parents (path_of a e)) s.disk)

  begun_stored :
      {now : Option Node}
      → begun.0 ≡ true
      → now ≡ set (path_of a e) (some (regular a.data')) begun.1 p
      → now ≡ set (path_of a e) (some (regular a.data')) (sharded a e s) p
  begun_stored t h =
      h
      ∙ set-cong (path_of a e) p (some (regular a.data')) begun.1 (sharded a e s)
          (make_dirs-made e.mkdirs p (parents (path_of a e)) s.disk t)

  -- the whole file is at its path, or nothing but directories is new
  abbrev IsWritten : Outcome (Unit {0}) × Disk → Type 0
  IsWritten r =
      ((r.0 ≡ returned tt)
        × (begun.0 ≡ true)
        × ((q : Text) → r.1 q ≡ set (path_of a e) (some (regular a.data')) begun.1 q))
      ⊎ ((r.0 ≡ raised (other "OSError")) × ((q : Text) → r.1 q ≡ begun.1 q))

  write_below-IsWritten :
      (b : Bool)
      → begun.0 ≡ b
      → IsWritten
          (write_below e.unlinks e.fault (tmp_of (path_of a e)) (path_of a e) a.data' (b, begun.1))
  unfolding write_below
  write_below-IsWritten true t =
      elim (write_file_cases e.unlinks begun.1 e.fault (path_of a e) a.data' tmp_free
        new.tmp_unlinks) [ inl (_, q, h) ↦ inl (q, t, h) | inr (q, h) ↦ inr (q, h) ]
  write_below-IsWritten false t = inr (refl, λ r. refl)

  write_atomic-IsWritten : IsWritten attempt
  unfolding write_atomic
  write_atomic-IsWritten = write_below-IsWritten begun.0 refl

  undo :
      (d : Disk)
      → ((r : Text) → d r ≡ set (path_of a e) (some (regular a.data')) begun.1 r)
      → discard e.unlinks (path_of a e) d p ≡ begun.1 p
  undo d h =
      discard-cong e.unlinks (set (path_of a e) (some (regular a.data')) begun.1) (path_of a e) p d
        h
      ∙ discard-set e.unlinks begun.1 (path_of a e) p a.data' path_free new.path_unlinks

  undo-nothing :
      (d : Disk) → ((r : Text) → d r ≡ begun.1 r) → discard e.unlinks (path_of a e) d p ≡ begun.1 p
  undo-nothing d h =
      discard-cong e.unlinks begun.1 (path_of a e) p d h
      ∙ discard-absent e.unlinks begun.1 (path_of a e) p path_free

  conclude :
      {r r' : Outcome Text × FileStore}
      → r ≡ r'
      → (IsStored a e s r' p ⊎ IsUndone a e s r' p)
      → (IsStored a e s r p ⊎ IsUndone a e s r p)
  conclude q = subst (λ r. IsStored a e s r p ⊎ IsUndone a e s r p) (sym q)

  insert_row_cases :
      (d : Disk)
      → begun.0 ≡ true
      → ((r : Text) → d r ≡ set (path_of a e) (some (regular a.data')) begun.1 r)
      → IsStored a e s (insert_row a e (record s { disk = d }) e.insert) p
        ⊎ IsUndone a e s (insert_row a e (record s { disk = d }) e.insert) p
  unfolding insert_row
  insert_row_cases d t h = elim (insert_outcome e.insert) [
    | inl q ↦
        conclude (ap (insert_row a e (record s { disk = d })) q)
          (inl (refl, begun_stored t (h p), refl))
    | inr (exc, inl q) ↦
        conclude (ap (insert_row a e (record s { disk = d })) q)
          (inr ((exc, refl), begun-IsLeft (undo d h), inr (exc, q)))
    | inr (exc, inr q) ↦
        conclude (ap (insert_row a e (record s { disk = d })) q)
          (inr ((exc, refl), begun-IsLeft (undo d h), inl refl))
  ]

  insert_written_cases :
      IsStored a e s (insert_written a e s (attempt.0) (attempt.1)) p
      ⊎ IsUndone a e s (insert_written a e s (attempt.0) (attempt.1)) p
  unfolding insert_written
  insert_written_cases = elim write_atomic-IsWritten [
    | inl (q, t, h) ↦
        conclude (ap (λ o. insert_written a e s o (attempt.1)) q) (insert_row_cases (attempt.1) t h)
    | inr (q, h) ↦
        conclude (ap (λ o. insert_written a e s o (attempt.1)) q)
          (inr ((other "OSError", refl), begun-IsLeft (h p), inl refl))
  ]

  interrupted_undoes : discard e.unlinks (path_of a e) (attempt.1) p ≡ begun.1 p
  interrupted_undoes = elim write_atomic-IsWritten [
    | inl (q, t, h) ↦ undo (attempt.1) h
    | inr (q, h) ↦ undo-nothing (attempt.1) h
  ]

-- `put` is atomic. It either returns the new id, with the row added, the directories above the file
-- made where nothing was, and the whole file at the row's path, every other path as it was; or it
-- raises, and no path has changed, but that directories above the file may be there where nothing
-- was, nor have the rows, unless the INSERT that raised has landed. The new file's path and its
-- temporary name are free before, and unlinks of the two go through.
pub put_is_atomic :
    (a : Asset) (e : Putting) (s : FileStore)
    → IsNew a e s
    → (p : Text) → IsStored a e s (put a e s) p ⊎ IsUndone a e s (put a e s) p
unfolding put
put_is_atomic a e s new p =
    let P : Outcome Text × FileStore → Type 0 = λ r. IsStored a e s r p ⊎ IsUndone a e s r p in
    on_test P (not (str_eq a.kind "image" || str_eq a.kind "video"))
      (λ _. inr ((other "ValueError", refl), inl refl, inl refl))
      (λ _.
        on_test P e.interrupted
          (λ _. inr (
            (cancelled, refl),
            begun-IsLeft a e s new p (interrupted_undoes a e s new p),
            inl refl,
          ))
          (λ _. insert_written_cases a e s new p))
