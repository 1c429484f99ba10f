-- ===== src/Json.antt =====
-- Parsed JSON, as Python's `json` gives it, and the operations on its objects. An object keeps its
-- members in order, each key once. The number of a float is kept as it is spelled.
pub mod Members
use openai_api_bridge.Prelude.{
  ℕ, zero, suc, Bool, true, false, not, Option, none, some, List, [], ◌∷◌, if◌then◌else◌, Text,
  text_eq,
}

mutual
  pub data Json : Type 0 where
    null : Json
    boolean : Bool → Json
    -- a whole number: whether it is negative, and its size
    integer : Bool → ℕ → Json
    -- a float: whether it is zero, and its spelling
    float : Bool → Text → Json
    text : Text → Json
    array : Items → Json
    object : Object → Json

  pub data Items : Type 0 where
    nil : Items
    cons : Json → Items → Items

  pub data Object : Type 0 where
    empty : Object
    member : Text → Json → Object → Object

-- `o.get(k)`
unfoldable pub get : Text → Object → Option Json
get k empty = none
get k (member j v o) = if text_eq j k then some v else get k o

-- `o[k] = v`
unfoldable pub set : Text → Json → Object → Object
set k v empty = member k v empty
set k v (member j w o) =
    let rest = set k v o in if text_eq j k then member j v o else member j w rest

-- `k in o`
abbrev pub is_present : Option Json → Bool
is_present none = false
is_present (some _) = true

abbrev pub has : Text → Object → Bool
has k o = is_present (get k o)

-- whether a value counts as true
unfoldable pub truthy : Json → Bool
truthy null = false
truthy (boolean b) = b
truthy (integer _ zero) = false
truthy (integer _ (suc _)) = true
truthy (float is_zero _) = not is_zero
truthy (text []) = false
truthy (text (_ ∷ _)) = true
truthy (array nil) = false
truthy (array (cons _ _)) = true
truthy (object empty) = false
truthy (object (member _ _ _)) = true
