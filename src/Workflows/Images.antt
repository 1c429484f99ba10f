-- ===== src/Workflows/Images.antt =====
-- How many images a workflow takes, and what `prepare_workflow` does with more.
use mathlib.Core.Path.{subst}
use openai_api_bridge.Prelude.{
  ℕ, suc, ◌-◌, ◌<◌, ◌≡◌, refl, sym, ap, ◌∙◌, inl, Bool, true, false, Option, none, some, List, [],
  ◌∷◌, length, if◌then◌else◌, Text, codes, arith,
}
use openai_api_bridge.Json.{
  Json, null, boolean, integer, float, text, array, object, Items, nil, cons, Object, get,
}
use openai_api_bridge.Workflows.{
  Failure, workflow_invalid, unsupported_operation, crashed, unmodelled, Prepared, prepared,
  refused, ◌>>=◌, or_default, write_input, usable, multiple, place, place_one, place_all,
  place_each, place_spec, all_images, inject_images, place_images, no_surplus,
}
use openai_api_bridge.Workflows.Writes.{
  Holds, Holds-bind, Holds-map, Holds-self, IsStray, write_input-Holds,
}
use openai_api_bridge.Workflows.Frame.{Kept, kept, Kept-inputs}
use openai_api_bridge.Workflows.Ratio.{input_of}
use openai_api_bridge.Workflows.Overwrites.{latest}
use openai_api_bridge.Workflows.Placement.{assigned, place_each-latest}
use openai_api_bridge.Workflows.Readiness.{Never, AreReady, place_each-AreReady}
use openai_api_bridge.Workflows.Capacity.{with_entry, capacity, capacity-Kept, usable-IsStray}

-- how many of the files are left over
abbrev pub beyond : ℕ → Option ℕ → ℕ
beyond n none = 0
beyond n (some c) = n - c

-- the verdict on the number of files, on an input of the result, and on an error
abbrev pub IsJudged :
    (List Text → Text) → Object → Items → List Text → Text → Text → Prepared Object → Type 0
IsJudged dumps w specs files id key (prepared w') =
    (beyond (length files) (capacity w specs) ≡ 0)
    × (input_of id key w' ≡ latest id key (assigned dumps w specs files) (input_of id key w))
IsJudged dumps w specs files id key (refused (unsupported_operation takes given)) =
    (capacity w specs ≡ some takes) × (takes < length files) × (given ≡ length files)
IsJudged dumps w specs files id key (refused workflow_invalid) = ⊥
IsJudged dumps w specs files id key (refused crashed) = ¬ AreReady w specs
IsJudged dumps w specs files id key (refused unmodelled) = ¬ AreReady w specs

Holds-both :
    {A : Type 0} (E : Failure → Type 0) (P Q : A → Type 0) (m : Prepared A)
    → Holds E P m
    → Holds E Q m
    → Holds E (λ a. P a × Q a) m
Holds-both E P Q (prepared a) h k = (h, k)
Holds-both E P Q (refused e) h k = h

module _ (dumps : List Text → Text) where
  -- what an entry leaves over, of which the entries after it take `c`
  abbrev Leaves :
      Object → ℕ → Bool → Prepared (Option Text) → Option ℕ → Object × List Text → Type 0
  Leaves w n many found c (w', rest) =
      Kept w w' × (beyond n (with_entry many found c) ≡ beyond (length rest) c)

  write-Kept :
      (id : Text) (f v : Json) (w : Object) → Holds IsStray (Kept w) (write_input false id f v w)
  write-Kept id f v w =
      write_input-Holds (Kept w) false id f v w
        λ n i e. Kept-inputs w w id n i e (kept λ j. inl refl)

  place_one-Leaves :
      (id : Text) (f : Json) (w : Object) (files : List Text) (c : Option ℕ)
      → Holds IsStray
          (Leaves w (length files) false (prepared (some id)) c)
          (place_one dumps id f w files)
  place_one-Leaves id f w [] none = (kept (λ j. inl refl), refl)
  place_one-Leaves id f w [] (some n) = (kept (λ j. inl refl), omega arith)
  place_one-Leaves id f w (file ∷ files) c =
      Holds-bind IsStray (Kept w) (Leaves w (length (file ∷ files)) false (prepared (some id)) c)
        (write_input false id f (text file) w) _ (write-Kept id f (text file) w)
        (λ w' h. (h, one c))
    where
      one :
          (c : Option ℕ)
          → beyond (suc (length files)) (with_entry false (prepared (some id)) c)
            ≡ beyond (length files) c
      one none = refl
      one (some n) = omega arith

  place_all-Leaves :
      (id : Text) (spec : Object) (f : Json) (w : Object) (files : List Text) (c : Option ℕ)
      → Holds IsStray
          (Leaves w (length files) true (prepared (some id)) c)
          (place_all dumps id spec f w files)
  place_all-Leaves id spec f w files c =
      Holds-bind IsStray (Kept w) (Leaves w (length files) true (prepared (some id)) c)
        (write_input false id f (all_images dumps spec files) w) _ (write-Kept id f _ w)
        (λ w' h. (h, none_left c))
    where
      none_left : (c : Option ℕ) → 0 ≡ beyond 0 c
      none_left none = refl
      none_left (some n) = omega arith

  place-Leaves :
      (spec w : Object) (files : List Text) (found : Option Text) (c : Option ℕ)
      → Holds IsStray
          (Leaves w (length files) (multiple spec) (prepared found) c)
          (place dumps spec (w, files) found)
  place-Leaves spec w files none c = (kept (λ j. inl refl), refl)
  place-Leaves spec w files (some id) c = either (multiple spec)
    where
      field_of : Json
      field_of = or_default null (get (codes "field") spec)

      either :
          (many : Bool)
          → Holds IsStray (Leaves w (length files) many (prepared (some id)) c) (
              if many
              then place_all dumps id spec field_of w files
              else place_one dumps id field_of w files)
      either true = place_all-Leaves id spec field_of w files c
      either false = place_one-Leaves id field_of w files c

  place_each-beyond :
      (specs : Items) (w : Object) (files : List Text)
      → Holds IsStray
          (λ st. length (st.1) ≡ beyond (length files) (capacity w specs))
          (place_each dumps specs (w, files))
  unfolding place_each capacity
  place_each-beyond nil w files = omega arith
  place_each-beyond (cons (object spec) specs) w files =
      Holds-bind IsStray
        (Leaves w (length files) (multiple spec) (usable spec w) (capacity w specs)) _
        (place_spec dumps (object spec) (w, files)) _
        (Holds-bind IsStray (λ found. usable spec w ≡ prepared found) _ (usable spec w) _
          (Holds-self IsStray (λ _. Unit {0}) (usable spec w) (usable-IsStray spec w))
          (λ found e.
            subst
              (λ u.
                Holds IsStray (Leaves w (length files) (multiple spec) u (capacity w specs))
                  (place dumps spec (w, files) found))
              (sym e) (place-Leaves spec w files found (capacity w specs))))
        (λ (w', rest) (h, e).
          Holds-map IsStray _ _ (place_each dumps specs (w', rest))
            (λ st q. q ∙ ap (beyond (length rest)) (capacity-Kept specs w w' h) ∙ sym e)
            (place_each-beyond specs w' rest))
  place_each-beyond (cons null specs) w files = tt
  place_each-beyond (cons (boolean b) specs) w files = tt
  place_each-beyond (cons (integer b n) specs) w files = tt
  place_each-beyond (cons (float b t) specs) w files = tt
  place_each-beyond (cons (text t) specs) w files = tt
  place_each-beyond (cons (array xs) specs) w files = tt

  module _ (w : Object) (specs : Items) (files : List Text) (id key : Text) where
    -- what is known of the graph and of the files that are left
    abbrev IsReached : Object × List Text → Type 0
    IsReached st =
        (length (st.1) ≡ beyond (length files) (capacity w specs))
        × (input_of id key (st.0)
            ≡ latest id key (assigned dumps w specs files) (input_of id key w))

    surplus-count :
        (supplied n : ℕ) (c : Option ℕ)
        → suc n ≡ beyond supplied c
        → (c ≡ some (supplied - suc n)) × (supplied - suc n < supplied)
    surplus-count supplied n none h = absurd (omega (arith, h))
    surplus-count supplied n (some c) h = (ap some (omega (arith, h)), omega (arith, h))

    no_surplus-IsJudged :
        (st : Object × List Text)
        → IsReached st
        → IsJudged dumps w specs files id key (no_surplus (length files) st)
    no_surplus-IsJudged (w', []) (h, r) = (sym h, r)
    no_surplus-IsJudged (w', file ∷ rest) (h, r) =
        let c = surplus-count (length files) (length rest) (capacity w specs) h in (c.0, c.1, refl)

    judged :
        (m : Prepared (Object × List Text))
        → Holds IsStray IsReached m
        → (AreReady w specs → Holds Never (λ _. Unit {0}) m)
        → IsJudged dumps w specs files id key (m >>= no_surplus (length files))
    judged (prepared st) h k = no_surplus-IsJudged st h
    judged (refused crashed) h k = k
    judged (refused unmodelled) h k = k
    judged (refused workflow_invalid) h k = h
    judged (refused (unsupported_operation a b)) h k = absurd h

    place_each-IsJudged :
        IsJudged dumps w specs files id key
          (place_each dumps specs (w, files) >>= no_surplus (length files))
    place_each-IsJudged =
        judged (place_each dumps specs (w, files))
          (Holds-both IsStray _ _ (place_each dumps specs (w, files))
            (place_each-beyond specs w files) (place_each-latest dumps id key specs w files))
          (place_each-AreReady dumps specs w files)

  -- Where the metadata has at least one entry of `image_inputs` and there is at least one file, one
  -- of three holds. All the files are taken, and every input of every node is what the last entry
  -- that names it writes there, the file that falls to the entry or, where it takes several, all
  -- that are left; an input that no entry names is as it was. Or the request is refused as
  -- unsupported, with the number of files that the entries take, counted on the graph as given, and
  -- the greater number supplied. Or another error is raised, and then an entry is no object, or its
  -- node is one of the graph's that has no dict of inputs, or its node or field cannot be a key.
  pub surplus_is_an_error :
      (meta : Object) (spec : Json) (specs : Items) (file : Text) (files : List Text) (w : Object)
      (id key : Text)
      → get (codes "image_inputs") meta ≡ some (array (cons spec specs))
      → IsJudged dumps w
          (cons spec specs)
          (file ∷ files)
          id
          key
          (inject_images dumps meta (file ∷ files) w)
  unfolding inject_images
  surplus_is_an_error meta spec specs file files w id key h =
      subst
        (λ o.
          IsJudged dumps w (cons spec specs) (file ∷ files) id key
            (place_images dumps (or_default (array nil) o) (file ∷ files) w))
        (sym h) (place_each-IsJudged w (cons spec specs) (file ∷ files) id key)
