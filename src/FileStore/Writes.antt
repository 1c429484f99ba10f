-- ===== src/FileStore/Writes.antt =====
-- What one write below a directory that is there leaves on the disk.
use openai_api_bridge.Prelude.{
  ◌<◌, ◌≤◌, ◌≡◌, refl, ap, ◌∙◌, ◌⊎◌, inl, inr, Bool, true, false, Option, none, some, [], ◌∷◌, ◌++◌,
  length, take, Text, codes, text_eq, text_eq_refl, text_eq_sound, text_eq_sym, Bool-cases, arith,
}
use openai_api_bridge.Errors.{other, returned, raised}
use openai_api_bridge.FileStore.{
  Node, regular, Disk, set, discard, Fault, no_temporary, at_rename, no_fault, partial, write_file,
  tmp_of,
}

longer : (t u : Text) → 0 < length u → text_eq t (t ++ u) ≡ false
unfolding text_eq
longer [] [] h = ground arith
longer [] (c ∷ u) h = refl
longer (a ∷ t) u h = ground (arith, longer t u)

apart : (path : Text) → text_eq (tmp_of path) path ≡ false
apart path = text_eq_sym (tmp_of path) path ∙ longer path (codes ".tmp") (omega arith)

module _ (unlinks : Text → Bool) (d : Disk) where
  pub discard-absent : (q p : Text) → d q ≡ none → discard unlinks q d p ≡ d p
  unfolding discard
  discard-absent q p h = ground (arith, h)

  pub discard-set :
      (q p : Text) (b : Text)
      → d q ≡ none
      → unlinks q ≡ true
      → discard unlinks q (set q (some (regular b)) d) p ≡ d p
  unfolding discard set
  discard-set q p b h g = ground (arith, h, g, text_eq_refl q, text_eq_sound p q)

  renamed :
      (path p data' : Text)
      → d (tmp_of path) ≡ none
      → set
          (tmp_of path)
          none
          (set path (some (regular data')) (set (tmp_of path) (some (regular data')) d))
          p
        ≡ set path (some (regular data')) d p
  unfolding set
  renamed path p data' h = elim (Bool-cases (text_eq p (tmp_of path))) [
    | inl q ↦
        let e = text_eq_sound p (tmp_of path) q in
        ground (arith, q, ap d e, h, ap (λ t. text_eq t path) e, apart path)
    | inr q ↦ ground (arith, q)
  ]

  -- a write below a directory either puts the whole file at its path or changes nothing
  pub write_file_cases :
      (fault : Fault) (path data' : Text)
      → d (tmp_of path) ≡ none
      → unlinks (tmp_of path) ≡ true
      → ((fault ≡ no_fault)
          × ((write_file unlinks fault (tmp_of path) path data' d).0 ≡ returned tt)
          × ((p : Text)
              → (write_file unlinks fault (tmp_of path) path data' d).1 p
                ≡ set path (some (regular data')) d p))
        ⊎ (((write_file unlinks fault (tmp_of path) path data' d).0 ≡ raised (other "OSError"))
            × ((p : Text) → (write_file unlinks fault (tmp_of path) path data' d).1 p ≡ d p))
  unfolding write_file
  write_file_cases no_temporary path data' h g = inr (refl, λ p. discard-absent (tmp_of path) p h)
  write_file_cases (partial k) path data' h g =
      inr (refl, λ p. discard-set (tmp_of path) p (take k data') h g)
  write_file_cases at_rename path data' h g = inr (refl, λ p. discard-set (tmp_of path) p data' h g)
  write_file_cases no_fault path data' h g = inl (refl, refl, λ p. renamed path p data' h)

  pub discard-cong :
      (q p : Text) (d' : Disk)
      → ((r : Text) → d' r ≡ d r)
      → discard unlinks q d' p ≡ discard unlinks q d p
  unfolding discard set
  discard-cong q p d' h = ground (arith, h q, h p)

pub set-cong :
    (q p : Text) (n : Option Node) (d d' : Disk) → d p ≡ d' p → set q n d p ≡ set q n d' p
unfolding set
set-cong q p n d d' h = ground (arith, h)

pub longer_le : (t u : Text) → length t ≤ length (t ++ u)
longer_le [] u = omega arith
longer_le (c ∷ t) u = omega (arith, longer_le t u)
