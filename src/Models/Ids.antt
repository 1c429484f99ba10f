-- ===== src/Models/Ids.antt =====
-- Model ids: taken apart and put together.
use openai_api_bridge.Prelude.{
  ℕ, ◌≡◌, refl, sym, ap, ◌∙◌, ◌↔◌, inl, inr, Bool, true, false, not, Option, none, some, [], ◌∷◌,
  ◌++◌, ◌==◌, ◌||◌, if◌then◌else◌, Text, contains, before, contains-before, before-append,
  Bool-cases, arith,
}
use openai_api_bridge.Models.{after_first, is_empty, parse_model_id}

after_first-append : (a : ℕ) (s t : Text) → contains a s ≡ false → after_first a (s ++ a ∷ t) ≡ t
unfolding after_first contains
after_first-append a [] t h = ground arith
after_first-append a (c ∷ s) t h = ground (arith, h, after_first-append a s t)

contains-append : (a : ℕ) (s t : Text) → contains a (s ++ a ∷ t) ≡ true
unfolding contains
contains-append a [] t = ground arith
contains-append a (c ∷ s) t = ground (arith, contains-append a s t)

before-after_first :
    (a : ℕ) (s : Text) → contains a s ≡ true → s ≡ before a s ++ a ∷ after_first a s
unfolding after_first contains before
before-after_first a [] h = absurd (impossible h)
  where
    impossible : false ≡ true → ⊥
    impossible q = cc
before-after_first a (c ∷ s) h = elim (Bool-cases (c == a)) [
  | inl p ↦ ground (arith, p)
  | inr p ↦ ground (arith, p, h, before-after_first a s)
]

-- the two parts are not empty, and the first has no slash
pub record AreParts (model_id : Text) (p : Text × Text) : Type 0 where
  pub joined : model_id ≡ p.0 ++ b'/' ∷ p.1
  pub no_slash : contains b'/' p.0 ≡ false
  pub provider : is_empty (p.0) ≡ false
  pub slug : is_empty (p.1) ≡ false

module _ (x p : Text × Text) where
  or_x : Option (Text × Text) → Text × Text
  or_x none = x
  or_x (some y) = y

  passed :
      (found e f : Bool)
      → (if not found then none else if e || f then none else some x) ≡ some p
      → (found ≡ true) × (e ≡ false) × (f ≡ false) × (x ≡ p)
  unfolding or_x
  passed true false false h = (refl, refl, refl, ap or_x h)
  passed true true f h = absurd (cc)
  passed true false true h = absurd (cc)
  passed false e f h = absurd (cc)

parse_model_id-AreParts : (s : Text) (p : Text × Text) → parse_model_id s ≡ some p → AreParts s p
unfolding parse_model_id
parse_model_id-AreParts s p h =
    let (found, e, f, q) =
      passed (before b'/' s, after_first b'/' s) p (contains b'/' s) (is_empty (before b'/' s))
        (is_empty (after_first b'/' s)) h in
    record {
      joined = before-after_first b'/' s found ∙ ap (λ r. r.0 ++ b'/' ∷ r.1) q;
      no_slash = sym (ap (λ r. contains b'/' (r.0)) q) ∙ contains-before b'/' s;
      provider = sym (ap (λ r. is_empty (r.0)) q) ∙ e;
      slug = sym (ap (λ r. is_empty (r.1)) q) ∙ f;
    }

pub AreParts-parse : (s : Text) (p : Text × Text) → AreParts s p → parse_model_id s ≡ some p
unfolding parse_model_id
AreParts-parse s (provider, slug) h =
    ap parse_model_id h.joined
    ∙ ground (
      arith,
      contains-append b'/' provider slug,
      before-append b'/' provider slug h.no_slash,
      after_first-append b'/' provider slug h.no_slash,
      h.provider,
      h.slug,
    )

-- A model id is taken apart into a provider's id and a slug exactly if it is the two with a slash
-- between them, neither is empty, and the provider's id has no slash.
pub parse_model_id_exact : (s : Text) (p : Text × Text) → (parse_model_id s ≡ some p) ↔ AreParts s p
parse_model_id_exact s p = (parse_model_id-AreParts s p, AreParts-parse s p)
