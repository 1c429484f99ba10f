-- ===== src/Labels/Renaming.antt =====
-- What the disambiguation leaves alone.
use openai_api_bridge.Prelude.{
  ℕ, zero, suc, ◌≡◌, refl, sym, ap, ◌∙◌, ◌⊎◌, inl, inr, ◌&&◌, ◌||◌, ltb, Bool, false, Option, none,
  some, List, [], ◌∷◌, ◌++◌, length, drop, Text, codes, text_eq, on_test,
}
use openai_api_bridge.Models.{is_in, is_empty, ModelEntry}
use openai_api_bridge.Labels.{
  Groups, id_at, set_name, free, renaming, rename, rename_each, rename_group, rename_groups, groups,
  disambiguate_display_names, split, join, prettify, squashed,
}

module _ (pinned : List Text) where
  -- the same entry, or one whose id is not pinned under another name
  abbrev pub IsRenamed : ModelEntry → ModelEntry → Type 0
  IsRenamed e f =
      (f ≡ e)
      ⊎ ((name : Option Text) × (is_in e.id pinned ≡ false)
          × (f ≡ record e { display_name = name }))

  abbrev pub AreRenamed : List ModelEntry → List ModelEntry → Type 0
  AreRenamed [] [] = Unit
  AreRenamed (e ∷ es) (f ∷ fs) = IsRenamed e f × AreRenamed es fs
  AreRenamed _ _ = ⊥

  AreRenamed-refl : (es : List ModelEntry) → AreRenamed es es
  AreRenamed-refl [] = tt
  AreRenamed-refl (e ∷ es) = (inl refl, AreRenamed-refl es)

  IsRenamed-again :
      (e f : ModelEntry) (name : Text)
      → IsRenamed e f
      → is_in f.id pinned ≡ false
      → IsRenamed e (record f { display_name = some name })
  IsRenamed-again e f name (inl p) u = inr (
    some name,
    sym (ap (λ g. is_in g.id pinned) p) ∙ u,
    ap (λ (g : ModelEntry). record g { display_name = some name }) p,
  )
  IsRenamed-again e f name (inr (n, v, p)) u =
      inr (some name, v, ap (λ (g : ModelEntry). record g { display_name = some name }) p)

  id_or : Option Text → Text → Text
  id_or none t = t
  id_or (some s) t = s

  set_name-AreRenamed :
      (i : ℕ) (name id : Text) (es out : List ModelEntry)
      → id_at i out ≡ some id
      → is_in id pinned ≡ false
      → AreRenamed es out
      → AreRenamed es (set_name i name out)
  unfolding id_at set_name id_or
  set_name-AreRenamed i name id [] [] p u h = h
  set_name-AreRenamed i name id [] (f ∷ fs) p u h = absurd h
  set_name-AreRenamed i name id (e ∷ es) [] p u h = absurd h
  set_name-AreRenamed zero name id (e ∷ es) (f ∷ fs) p u (h, hs) =
      (IsRenamed-again e f name h (ap (λ o. is_in (id_or o f.id) pinned) p ∙ u), hs)
  set_name-AreRenamed (suc i) name id (e ∷ es) (f ∷ fs) p u (h, hs) =
      (h, set_name-AreRenamed i name id es fs p u hs)

  id_at-set_name :
      (i j : ℕ) (name : Text) (out : List ModelEntry) → id_at j (set_name i name out) ≡ id_at j out
  unfolding id_at set_name
  id_at-set_name i j name [] = refl
  id_at-set_name zero zero name (e ∷ es) = refl
  id_at-set_name zero (suc j) name (e ∷ es) = refl
  id_at-set_name (suc i) zero name (e ∷ es) = refl
  id_at-set_name (suc i) (suc j) name (e ∷ es) = id_at-set_name i j name es

  -- at each index stands the id, and it is not pinned
  abbrev AreFree : List ModelEntry → List (ℕ × Text) → Type 0
  AreFree out [] = Unit
  AreFree out ((i, id) ∷ rest) =
      (id_at i out ≡ some id) × (is_in id pinned ≡ false) × AreFree out rest

  free-AreFree :
      (out : List ModelEntry) (i : ℕ) (o : Option Text) (rest : List (ℕ × Text))
      → id_at i out ≡ o
      → AreFree out rest
      → AreFree out (free pinned i o rest)
  free-AreFree out i none rest e h = h
  free-AreFree out i (some id) rest e h =
      on_test (AreFree out) (is_in id pinned) (λ _. h) (λ u. (e, u, h))

  renaming-AreFree : (out : List ModelEntry) (is : List ℕ) → AreFree out (renaming pinned out is)
  unfolding renaming
  renaming-AreFree out [] = tt
  renaming-AreFree out (i ∷ is) =
      free-AreFree out i (id_at i out) (renaming pinned out is) refl (renaming-AreFree out is)

  AreFree-set_name :
      (i : ℕ) (name : Text) (out : List ModelEntry) (rest : List (ℕ × Text))
      → AreFree out rest
      → AreFree (set_name i name out) rest
  AreFree-set_name i name out [] h = tt
  AreFree-set_name i name out ((j, id) ∷ rest) (p, u, h) =
      (id_at-set_name i j name out ∙ p, u, AreFree-set_name i name out rest h)

  module _ (upper casefold : Text → Text) (is_alnum : ℕ → Bool) (entries : List ModelEntry) where
    abbrev AreKept : List (ℕ × Text) → List ModelEntry → Type 0
    AreKept rest out = AreFree out rest × AreRenamed entries out

    rename-AreKept :
        (may_shed : Bool) (name label id : Text) (i : ℕ) (rest : List (ℕ × Text))
        (out : List ModelEntry)
        → AreKept ((i, id) ∷ rest) out
        → AreKept rest (rename upper casefold is_alnum may_shed name label i out)
    rename-AreKept may_shed name label id i rest out ((p, u, h), r) =
        on_test (AreKept rest)
          (may_shed
            && (is_empty label
                || text_eq (squashed upper casefold is_alnum label)
                    (squashed upper casefold is_alnum name)))
          (λ _. (h, r))
          (λ _. (
            AreFree-set_name i (name ++ codes " (" ++ label ++ codes ")") out rest h,
            set_name-AreRenamed i (name ++ codes " (" ++ label ++ codes ")") id entries out p u r,
          ))

    rename_each-AreRenamed :
        (may_shed : Bool) (name : Text) (shared : ℕ) (rest : List (ℕ × Text))
        (out : List ModelEntry)
        → AreKept rest out
        → AreRenamed entries (rename_each upper casefold is_alnum may_shed name shared rest out)
    unfolding rename_each
    rename_each-AreRenamed may_shed name shared [] out (h, r) = r
    rename_each-AreRenamed may_shed name shared ((i, id) ∷ rest) out k =
        let label = prettify upper (join b'/' (drop shared (split b'/' id))) in
        rename_each-AreRenamed may_shed name shared rest
          (rename upper casefold is_alnum may_shed name label i out)
          (rename-AreKept may_shed name label id i rest out k)

    rename_group-AreRenamed :
        (name : Text) (is : List ℕ) (out : List ModelEntry)
        → AreRenamed entries out
        → AreRenamed entries (rename_group upper casefold is_alnum pinned name is out)
    unfolding rename_group
    rename_group-AreRenamed name is out h =
        on_test (AreRenamed entries) (ltb (length is) 2) (λ _. h)
          (λ _.
            rename_each-AreRenamed _ name _ (renaming pinned out is) out
              (renaming-AreFree out is, h))

    rename_groups-AreRenamed :
        (gs : Groups) (out : List ModelEntry)
        → AreRenamed entries out
        → AreRenamed entries (rename_groups upper casefold is_alnum pinned gs out)
    unfolding rename_groups
    rename_groups-AreRenamed [] out h = h
    rename_groups-AreRenamed ((name, is) ∷ gs) out h =
        rename_groups-AreRenamed gs (rename_group upper casefold is_alnum pinned name is out)
          (rename_group-AreRenamed name is out h)

    -- The disambiguation keeps the entries and their order, changes no more of an entry than its
    -- display name, and leaves every entry whose id is pinned as it is.
    pub disambiguate_display_names-AreRenamed :
        AreRenamed entries (disambiguate_display_names upper casefold is_alnum entries pinned)
    unfolding disambiguate_display_names
    disambiguate_display_names-AreRenamed =
        rename_groups-AreRenamed (groups 0 [] entries) entries (AreRenamed-refl entries)
