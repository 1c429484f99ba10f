-- ===== src/FileStore/Parents.antt =====
-- The directories that `mkdir(parents=True, exist_ok=True)` leaves above a new file.
use openai_api_bridge.Prelude.{
  ℕ, suc, ◌<◌, ◌==◌, ◌≡◌, ◌≤◌, refl, sym, ap, ◌∙◌, ◌⊎◌, inl, inr, Bool, true, false, Option, none,
  some, List, [], ◌∷◌, ◌||◌, map, length, if◌then◌else◌, Text, text_eq, text_eq_sound, Bool-cases,
  arith,
}
use mathlib.Core.Path.{subst}
use openai_api_bridge.FileStore.{Node, regular, directory, Disk, set, above, parents, make_dirs}

abbrev pub is_one_of : Text → List Text → Bool
is_one_of p [] = false
is_one_of p (q ∷ qs) = text_eq p q || is_one_of p qs

-- a directory where nothing was
abbrev pub or_directory : Option Node → Option Node
or_directory none = some directory
or_directory (some node) = some node

-- the disk with the directories made
abbrev pub made : List Text → Disk → Disk
made paths d p = if is_one_of p paths then or_directory (d p) else d p

-- `now` is what the path holds after some of the directories were made, or none of them
abbrev pub IsLeft : List Text → Disk → Text → Option Node → Type 0
IsLeft paths d p now =
    (now ≡ d p) ⊎ ((is_one_of p paths ≡ true) × (d p ≡ none) × (now ≡ some directory))

node_cases :
    (o : Option Node)
    → (o ≡ none) ⊎ ((o ≡ some directory) ⊎ ((bytes : Text) × (o ≡ some (regular bytes))))
node_cases none = inl refl
node_cases (some directory) = inr (inl refl)
node_cases (some (regular bytes)) = inr (inr (bytes, refl))

made_here :
    (p q : Text) (qs : List Text) (d : Disk)
    → d q ≡ none
    → made qs (set q (some directory) d) p ≡ made (q ∷ qs) d p
unfolding set
made_here p q qs d e = elim (Bool-cases (text_eq p q)) [
  | inl h ↦
      let n = ap d (text_eq_sound p q h) ∙ e in
      elim (Bool-cases (is_one_of p qs)) [ inl i ↦ rw (h, n, i) refl | inr i ↦ rw (h, n, i) refl ]
  | inr h ↦ rw h refl
]

made_already :
    (p q : Text) (qs : List Text) (d : Disk)
    → d q ≡ some directory
    → made qs d p ≡ made (q ∷ qs) d p
made_already p q qs d e = elim (Bool-cases (text_eq p q)) [
  | inl h ↦
      let n = ap d (text_eq_sound p q h) ∙ e in
      elim (Bool-cases (is_one_of p qs)) [ inl i ↦ rw (h, n, i) refl | inr i ↦ rw (h, n, i) refl ]
  | inr h ↦ rw h refl
]

false-true : ¬ (false ≡ true)
false-true h = ground arith

IsLeft-here :
    (p q : Text) (qs : List Text) (d : Disk) (now : Option Node)
    → d q ≡ none
    → IsLeft qs (set q (some directory) d) p now
    → IsLeft (q ∷ qs) d p now
unfolding set
IsLeft-here p q qs d now e (inl h) = elim (Bool-cases (text_eq p q)) [
  | inl i ↦
      inr (
        rw i refl,
        ap d (text_eq_sound p q i) ∙ e,
        h ∙ ap (λ b. if b then some directory else d p) i,
      )
  | inr i ↦ inl (h ∙ ap (λ b. if b then some directory else d p) i)
]
IsLeft-here p q qs d now e (inr (i, n, h)) = elim (Bool-cases (text_eq p q)) [
  | inl j ↦ inr (rw j refl, ap d (text_eq_sound p q j) ∙ e, h)
  | inr j ↦ inr (rw j i, ap (λ b. if b then some directory else d p) (sym j) ∙ n, h)
]

IsLeft-already :
    (p q : Text) (qs : List Text) (d : Disk) (now : Option Node)
    → IsLeft qs d p now
    → IsLeft (q ∷ qs) d p now
IsLeft-already p q qs d now (inl h) = inl h
IsLeft-already p q qs d now (inr (i, n, h)) = inr (ground (arith, i), n, h)

module _ (mkdirs : Text → Bool) where
  -- the first directory is made, or there, or the call fails with the disk as it was
  make_dirs_step :
      (q : Text) (qs : List Text) (d : Disk)
      → ((make_dirs mkdirs (q ∷ qs) d ≡ make_dirs mkdirs qs (set q (some directory) d))
          × (d q ≡ none))
        ⊎ (((make_dirs mkdirs (q ∷ qs) d ≡ make_dirs mkdirs qs d) × (d q ≡ some directory))
            ⊎ (make_dirs mkdirs (q ∷ qs) d ≡ (false, d)))
  unfolding make_dirs
  make_dirs_step q qs d = elim (node_cases (d q)) [
    | inl e ↦ elim (Bool-cases (mkdirs q)) [
      | inl m ↦ inl (rw (e, m, make_dirs) refl, e)
      | inr m ↦ inr (inr (rw (e, m, make_dirs) refl))
    ]
    | inr (inl e) ↦ inr (inl (rw (e, make_dirs) refl, e))
    | inr (inr (bytes, e)) ↦ inr (inr (rw (e, make_dirs) refl))
  ]

  -- where it goes through, the directories are there
  pub make_dirs-made :
      (p : Text) (qs : List Text) (d : Disk)
      → (make_dirs mkdirs qs d).0 ≡ true
      → (make_dirs mkdirs qs d).1 p ≡ made qs d p
  unfolding make_dirs
  make_dirs-made p [] d h = refl
  make_dirs-made p (q ∷ qs) d h = elim (make_dirs_step q qs d) [
    | inl (s, e) ↦
        ap (λ r. r.1 p) s
        ∙ make_dirs-made p qs (set q (some directory) d) (ap (λ r. r.0) (sym s) ∙ h)
        ∙ made_here p q qs d e
    | inr (inl (s, e)) ↦
        ap (λ r. r.1 p) s
        ∙ make_dirs-made p qs d (ap (λ r. r.0) (sym s) ∙ h)
        ∙ made_already p q qs d e
    | inr (inr s) ↦ absurd (false-true (ap (λ r. r.0) (sym s) ∙ h))
  ]

  -- in any case nothing but directories is new
  pub make_dirs-IsLeft :
      (p : Text) (qs : List Text) (d : Disk) → IsLeft qs d p ((make_dirs mkdirs qs d).1 p)
  unfolding make_dirs
  make_dirs-IsLeft p [] d = inl refl
  make_dirs-IsLeft p (q ∷ qs) d = elim (make_dirs_step q qs d) [
    | inl (s, e) ↦
        subst (λ r. IsLeft (q ∷ qs) d p (r.1 p)) (sym s)
          (IsLeft-here p q qs d _ e (make_dirs-IsLeft p qs (set q (some directory) d)))
    | inr (inl (s, e)) ↦
        subst (λ r. IsLeft (q ∷ qs) d p (r.1 p)) (sym s)
          (IsLeft-already p q qs d _ (make_dirs-IsLeft p qs d))
    | inr (inr s) ↦ inl (ap (λ r. r.1 p) s)
  ]

-- every directory above a file has a shorter path
shorter_prepended :
    (p : Text) (c n : ℕ) (ways : List Text)
    → ((r : Text) → is_one_of r ways ≡ true → length r < n)
    → is_one_of p (map (λ way. c ∷ way) ways) ≡ true
    → length p < suc n
unfolding text_eq
shorter_prepended p c n [] h i = ground arith
shorter_prepended [] c n (way ∷ ways) h i = omega arith
shorter_prepended (a ∷ p) c n (way ∷ ways) h i = elim (Bool-cases (text_eq p way)) [
  | inl q ↦ omega (arith, h p (rw q refl))
  | inr q ↦
      shorter_prepended (a ∷ p) c n ways (λ r j. h r (ground (arith, j))) (ground (arith, i, q))
]

above_shorter : (path p : Text) → is_one_of p (above path) ≡ true → length p < length path
unfolding above text_eq
above_shorter [] p i = ground arith
above_shorter (c ∷ path) [] i = omega arith
above_shorter (c ∷ path) (a ∷ p) i =
    let further = map (λ way. c ∷ way) (above path) in
    shorter_prepended (a ∷ p) c (length path) (above path) (above_shorter path)
      (elim (Bool-cases (c == b'/')) [
        | inl q ↦ ap (λ b. is_one_of (a ∷ p) (if b then [] ∷ further else further)) (sym q) ∙ i
        | inr q ↦ ap (λ b. is_one_of (a ∷ p) (if b then [] ∷ further else further)) (sym q) ∙ i
      ])

parents_shorter : (path p : Text) → is_one_of p (parents path) ≡ true → length p < length path
unfolding parents
parents_shorter [] p i = ground arith
parents_shorter (c ∷ path) p i =
    shorter_prepended p c (length path) (above path) (above_shorter path) i

-- a path that is no shorter than the file's is none of the directories above it
pub no_parent : (path p : Text) → length path ≤ length p → is_one_of p (parents path) ≡ false
no_parent path p h = elim (Bool-cases (is_one_of p (parents path))) [
  | inl i ↦ absurd (omega (arith, h, parents_shorter path p i))
  | inr i ↦ i
]

-- and is left alone
pub make_dirs_apart :
    (mkdirs : Text → Bool) (path p : Text) (d : Disk)
    → length path ≤ length p
    → (make_dirs mkdirs (parents path) d).1 p ≡ d p
make_dirs_apart mkdirs path p d h = elim (make_dirs-IsLeft mkdirs p (parents path) d) [
  | inl e ↦ e
  | inr (i, _, _) ↦ absurd (false-true (sym (no_parent path p h) ∙ i))
]
