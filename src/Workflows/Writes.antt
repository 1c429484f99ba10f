-- ===== src/Workflows/Writes.antt =====
-- What holds of every result of a computation that may be refused, and of one write to a graph.
use mathlib.Core.Path.{subst}
use openai_api_bridge.Prelude.{
  ◌≡◌, refl, sym, ap, Bool, true, false, Option, none, some, Text, codes,
}
use openai_api_bridge.Json.{
  Json, null, boolean, integer, float, text, array, object, Object, get, set,
}
use openai_api_bridge.Workflows.{
  Failure, crashed, unmodelled, Prepared, prepared, refused, ◌>>=◌, as_key, inputs_in, inputs_of,
  write_input,
}

abbrev pub Holds : {A : Type 0} → (Failure → Type 0) → (A → Type 0) → Prepared A → Type 0
Holds E P (prepared a) = P a
Holds E P (refused e) = E e

pub Holds-bind :
    {A B : Type 0} (E : Failure → Type 0) (Q : A → Type 0) (P : B → Type 0) (m : Prepared A)
    (f : A → Prepared B)
    → Holds E Q m
    → ((a : A) → Q a → Holds E P (f a))
    → Holds E P (m >>= f)
Holds-bind E Q P (prepared a) f h k = k a h
Holds-bind E Q P (refused e) f h k = h

abbrev IsRefused : {A : Type 0} → Prepared A → Type 0
IsRefused (prepared a) = ⊥
IsRefused (refused e) = Unit {0}

pub Holds-prepared :
    {A : Type 0} (E : Failure → Type 0) (P : A → Type 0) (m : Prepared A) (a : A)
    → Holds E P m
    → m ≡ prepared a
    → P a
Holds-prepared E P (prepared b) a h e = subst (Holds (λ _. Unit {0}) P) e h
Holds-prepared E P (refused x) a h e = absurd (subst IsRefused e tt)

-- an error that the code raises by no statement of its own
abbrev pub IsStray : Failure → Type 0
IsStray crashed = Unit {0}
IsStray unmodelled = Unit {0}
IsStray _ = ⊥

pub as_key-IsStray : (j : Json) → Holds IsStray (λ _. Unit {0}) (as_key j)
as_key-IsStray null = tt
as_key-IsStray (boolean b) = tt
as_key-IsStray (integer b n) = tt
as_key-IsStray (float b t) = tt
as_key-IsStray (text t) = tt
as_key-IsStray (array xs) = tt
as_key-IsStray (object o) = tt

inputs_in-node :
    (d : Bool) (o : Option Json) (n : Object) → Holds IsStray (λ p. p.0 ≡ n) (inputs_in d o n)
inputs_in-node true none n = refl
inputs_in-node false none n = tt
inputs_in-node d (some null) n = tt
inputs_in-node d (some (boolean b)) n = tt
inputs_in-node d (some (integer b k)) n = tt
inputs_in-node d (some (float b t)) n = tt
inputs_in-node d (some (text t)) n = tt
inputs_in-node d (some (array xs)) n = tt
inputs_in-node d (some (object i)) n = refl

inputs_of-node :
    (d : Bool) (o : Option Json) → Holds IsStray (λ p. o ≡ some (object p.0)) (inputs_of d o)
inputs_of-node d (some (object n)) =
    renamed (inputs_in d (get (codes "inputs") n) n) (inputs_in-node d (get (codes "inputs") n) n)
  where
    renamed :
        (m : Prepared (Object × Object))
        → Holds IsStray (λ p. p.0 ≡ n) m
        → Holds IsStray (λ p. some (object n) ≡ some (object p.0)) m
    renamed (prepared p) h = ap (λ o. some (object o)) (sym h)
    renamed (refused e) h = h
inputs_of-node d none = tt
inputs_of-node d (some null) = tt
inputs_of-node d (some (boolean b)) = tt
inputs_of-node d (some (integer b k)) = tt
inputs_of-node d (some (float b t)) = tt
inputs_of-node d (some (text t)) = tt
inputs_of-node d (some (array xs)) = tt

-- a write puts other inputs into a node that is there, and is an object
pub write_input-Holds :
    (P : Object → Type 0) (d : Bool) (id : Text) (f v : Json) (w : Object)
    → ((n i : Object)
        → get id w ≡ some (object n)
        → P (set id (object (set (codes "inputs") (object i) n)) w))
    → Holds IsStray P (write_input d id f v w)
unfolding write_input
write_input-Holds P d id f v w p =
    Holds-bind IsStray _ P (inputs_of d (get id w)) _ (inputs_of-node d (get id w)) λ (n, i) e.
      Holds-bind IsStray _ P (as_key f) _ (as_key-IsStray f) λ key _. p n (set key v i) e

-- any error at all
abbrev pub AnyError : Failure → Type 0
AnyError e = Unit {0}

pub Holds-any :
    {A : Type 0} (E : Failure → Type 0) (P : A → Type 0) (m : Prepared A)
    → Holds E P m
    → Holds AnyError P m
Holds-any E P (prepared a) h = h
Holds-any E P (refused e) h = tt

-- after a computation of which nothing is said
pub after :
    {A B : Type 0} (P : B → Type 0) (m : Prepared A) (f : A → Prepared B)
    → ((a : A) → Holds AnyError P (f a))
    → Holds AnyError P (m >>= f)
after P (prepared a) f h = h a
after P (refused e) f h = tt

pub Holds-map :
    {A : Type 0} (E : Failure → Type 0) (P Q : A → Type 0) (m : Prepared A)
    → ((a : A) → P a → Q a)
    → Holds E P m
    → Holds E Q m
Holds-map E P Q (prepared a) f h = f a h
Holds-map E P Q (refused e) f h = h

pub Holds-self :
    {A : Type 0} (E : Failure → Type 0) (P : A → Type 0) (m : Prepared A)
    → Holds E P m
    → Holds E (λ a. m ≡ prepared a) m
Holds-self E P (prepared a) h = refl
Holds-self E P (refused e) h = h
