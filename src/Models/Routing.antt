-- ===== src/Models/Routing.antt =====
-- Every model that is listed can be asked for.
use mathlib.Core.Path.{subst}
use openai_api_bridge.Prelude.{
  ℕ, zero, suc, ◌≡◌, refl, sym, ap, ◌∙◌, inl, inr, false, none, some, List, [], ◌∷◌, ◌++◌,
  if◌then◌else◌, Text, codes, text_eq, text_eq_refl, text_eq_sound, text_eq_sym, contains,
  Bool-cases, on_test,
}
use openai_api_bridge.Errors.{is_exception, Outcome, returned, raised}
use openai_api_bridge.Json.{text, Object, get}
use openai_api_bridge.Models.{
  is_empty, parse_model_id, assign, find, register_all, for_provider, ModelEntry, row, Fetch,
  entries_for, entries_within, rows_of, add_rows, list_models,
}
use openai_api_bridge.Models.Lookup.{find-assign}
use openai_api_bridge.Models.Ids.{AreParts-parse}

-- what the configuration has to give a provider as its id
pub record IsProviderId (id : Text) : Type 0 where
  pub no_slash : contains b'/' id ≡ false
  pub something : is_empty id ≡ false

abbrev pub All : {A : Type 0} → (A → Type 0) → List A → Type 0
All P [] = Unit
All P (a ∷ as') = P a × All P as'

abbrev AreNamed : List ModelEntry → Type 0
AreNamed es = All (λ e. is_empty e.id ≡ false) es

-- the entries of a backend all have an id
abbrev pub HasIds : Outcome (List ModelEntry) → Type 0
HasIds (returned es) = AreNamed es
HasIds (raised e) = Unit

entries_for-HasIds : (o : Outcome (List ModelEntry)) → HasIds o → HasIds (entries_for o)
entries_for-HasIds (returned es) h = h
entries_for-HasIds (raised e) h = on_test HasIds (is_exception e) (λ _. tt) (λ _. tt)

entries_within-HasIds :
    (budget : ℕ) (f : Fetch) → HasIds f.outcome → HasIds (entries_within budget f)
unfolding entries_within
entries_within-HasIds zero f h = entries_for-HasIds f.outcome h
entries_within-HasIds (suc budget) f h =
    on_test HasIds f.in_time (λ _. entries_for-HasIds f.outcome h) (λ _. tt)

module _ {Backend : Type 0} where
  -- each id once, and each usable
  abbrev IsRegistry : List (Text × Backend) → Type 0
  IsRegistry [] = Unit
  IsRegistry ((id, b) ∷ d) = IsProviderId id × (find id d ≡ none) × IsRegistry d

  assign-IsRegistry :
      (k : Text) (v : Backend) (d : List (Text × Backend))
      → IsProviderId k
      → IsRegistry d
      → IsRegistry (assign k v d)
  unfolding find assign
  assign-IsRegistry k v [] p h = (p, refl, tt)
  assign-IsRegistry k v ((i, w) ∷ d) p (q, fresh, h) =
      on_test IsRegistry (text_eq i k) (λ _. (q, fresh, h))
        (λ e. (
          q,
          find-assign k i v d
              ∙ ap (λ b. if b then some v else find i d) (text_eq_sym k i ∙ e)
              ∙ fresh,
          assign-IsRegistry k v d p h,
        ))

  register_all-IsRegistry :
      {Config : Type 0} (build : Config → Backend) (d : List (Text × Backend))
      (providers : List (Text × Config))
      → All (λ p. IsProviderId (p.0)) providers
      → IsRegistry d
      → IsRegistry (register_all build d providers)
  unfolding register_all
  register_all-IsRegistry build d [] ps h = h
  register_all-IsRegistry build d ((id, cfg) ∷ providers) (p, ps) h =
      register_all-IsRegistry build (assign id (build cfg) d) providers ps
        (assign-IsRegistry id (build cfg) d p h)

  -- every backend of the second list is found in the first, under its id
  abbrev AreFound : List (Text × Backend) → List (Text × Backend) → Type 0
  AreFound all [] = Unit
  AreFound all ((id, b) ∷ d) = IsProviderId id × (for_provider all id ≡ some b) × AreFound all d

  past :
      (i j : Text) (w b : Backend) (d : List (Text × Backend))
      → find i d ≡ none
      → find j d ≡ some b
      → find j ((i, w) ∷ d) ≡ some b
  unfolding find
  past i j w b d fresh h = elim (Bool-cases (text_eq i j)) [
    | inl p ↦ absurd (impossible (sym h ∙ ap (λ t. find t d) (sym (text_eq_sound i j p)) ∙ fresh))
    | inr p ↦ ap (λ t. if t then some w else find j d) p ∙ h
  ]
    where
      impossible : some b ≡ none → ⊥
      impossible q = cc

  AreFound-past :
      (i : Text) (w : Backend) (all d : List (Text × Backend))
      → find i all ≡ none
      → AreFound all d
      → AreFound ((i, w) ∷ all) d
  AreFound-past i w all [] fresh h = tt
  AreFound-past i w all ((j, b) ∷ d) fresh (p, e, h) =
      (p, past i j w b all fresh e, AreFound-past i w all d fresh h)

  IsRegistry-AreFound : (d : List (Text × Backend)) → IsRegistry d → AreFound d d
  unfolding find
  IsRegistry-AreFound [] h = tt
  IsRegistry-AreFound ((i, w) ∷ d) (p, fresh, h) = (
    p,
    ap (λ t. if t then some w else find i d) (text_eq_refl i),
    AreFound-past i w d d fresh (IsRegistry-AreFound d h),
  )

  -- the row's id is taken apart into its owner, under which a backend is found, and a slug
  abbrev pub IsRoutable : List (Text × Backend) → Object → Type 0
  IsRoutable backends r =
      (id : Text) × (provider_id : Text) × (slug : Text) × (b : Backend) × (get (codes "id") r
        ≡ some (text id))
      × (get (codes "owned_by") r ≡ some (text provider_id))
      × (parse_model_id id ≡ some (provider_id, slug))
      × (for_provider backends provider_id ≡ some b)

  row-IsRoutable :
      (backends : List (Text × Backend)) (now : ℕ) (pid : Text) (b : Backend) (e : ModelEntry)
      → IsProviderId pid
      → for_provider backends pid ≡ some b
      → is_empty e.id ≡ false
      → IsRoutable backends (row now pid e)
  unfolding row get text_eq
  row-IsRoutable backends now pid b e p f h = (
    pid ++ b'/' ∷ e.id,
    pid,
    e.id,
    b,
    refl,
    refl,
    AreParts-parse (pid ++ b'/' ∷ e.id) (pid, e.id)
        record { joined = refl; no_slash = p.no_slash; provider = p.something; slug = h },
    f,
  )

  abbrev AllRoutable : List (Text × Backend) → Outcome (List Object) → Type 0
  AllRoutable backends (returned rows) = All (IsRoutable backends) rows
  AllRoutable backends (raised e) = Unit

  rows-Routable :
      (backends : List (Text × Backend)) (now : ℕ) (pid : Text) (b : Backend) (es : List ModelEntry)
      (rest : List Object)
      → IsProviderId pid
      → for_provider backends pid ≡ some b
      → AreNamed es
      → All (IsRoutable backends) rest
      → All (IsRoutable backends) (rows_of now pid es ++ rest)
  unfolding rows_of
  rows-Routable backends now pid b [] rest p f hs h = h
  rows-Routable backends now pid b (e ∷ es) rest p f (q, qs) h =
      (row-IsRoutable backends now pid b e p f q, rows-Routable backends now pid b es rest p f qs h)

  add_rows-Routable :
      (backends : List (Text × Backend)) (now : ℕ) (pid : Text) (b : Backend)
      (o : Outcome (List ModelEntry)) (rest : Outcome (List Object))
      → IsProviderId pid
      → for_provider backends pid ≡ some b
      → HasIds o
      → AllRoutable backends rest
      → AllRoutable backends (add_rows now pid o rest)
  add_rows-Routable backends now pid b (returned es) (returned rest) p f hs h =
      rows-Routable backends now pid b es rest p f hs h
  add_rows-Routable backends now pid b (returned es) (raised e) p f hs h = tt
  add_rows-Routable backends now pid b (raised e) rest p f hs h = tt

  module _ (catalogue : Backend → Fetch) (budget now : ℕ)
      (named : (b : Backend) → HasIds (catalogue b).outcome) where
    list_models-Routable :
        (backends d : List (Text × Backend))
        → AreFound backends d
        → AllRoutable backends (list_models catalogue budget now d)
    unfolding list_models
    list_models-Routable backends [] h = tt
    list_models-Routable backends ((pid, b) ∷ d) (p, f, h) =
        add_rows-Routable backends now pid b (entries_within budget (catalogue b))
          (list_models catalogue budget now d) p f
          (entries_within-HasIds budget (catalogue b) (named b)) (list_models-Routable backends d h)

    -- Every model that is listed can be asked for. If no configured provider's id is empty or has a
    -- slash, and no entry of a catalogue has an empty id, then every row of the listing has an id
    -- that is taken apart into the row's owner and a slug, and the dispatcher has a backend under
    -- the owner's id.
    pub list_models-IsRoutable :
        {Config : Type 0} (build : Config → Backend) (providers : List (Text × Config))
        (rows : List Object)
        → All (λ p. IsProviderId (p.0)) providers
        → list_models catalogue budget now (register_all build [] providers) ≡ returned rows
        → All (IsRoutable (register_all build [] providers)) rows
    list_models-IsRoutable build providers rows ps h =
        let d = register_all build [] providers in
        subst (AllRoutable d) h (
          list_models-Routable d d
            (IsRegistry-AreFound d (register_all-IsRegistry build [] providers ps tt)))
