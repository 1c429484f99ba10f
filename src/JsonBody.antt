-- ===== src/JsonBody.antt =====
-- util/json_body.py: `JsonBody` and its `replace_top_level`. The body is kept as the text that the
-- spans index into; `dumps` stands for `json.dumps`. The spans of a body start at different places,
-- so its edits are sorted by where they start.
pub mod Slices
pub mod Splice
mod Tests
use openai_api_bridge.Prelude.{
  ℕ, zero, suc, ◌+◌, ◌-◌, Bool, true, false, Option, none, some, List, [], ◌∷◌, ◌++◌, ltb, ◌==◌,
  ◌&&◌, if◌then◌else◌, length, take, drop, Text, text_eq,
}
use openai_api_bridge.Json.{Json, Object, empty, member, set}

pub record Edit : Type 0 where
  pub start : ℕ
  pub stop : ℕ
  pub encoded : Text

abbrev pub Spans : Type 0
Spans = List (Text × List (ℕ × ℕ))

pub record JsonBody : Type 0 where
  pub fields : Object
  pub text : Text
  pub spans : Spans

-- `source[a:b]`
abbrev pub slice : ℕ → ℕ → Text → Text
slice a b source = take (b - a) (drop a source)

-- what `parts` joins to: the source from `pos` on, with the edits made
unfoldable pub splice : ℕ → Text → List Edit → Text
splice pos source [] = drop pos source
splice pos source (e ∷ es) = slice pos e.start source ++ (e.encoded ++ splice e.stop source es)

-- `shift_before[bisect_left(starts, start)]`: the lengths that the edits before `start` add, and
-- those that they take away
unfoldable pub shift : List Edit → ℕ → ℕ × ℕ
shift [] start = (0, 0)
shift (e ∷ es) start =
    let (added, removed) = shift es start in
    if ltb e.start start then (length e.encoded + added, (e.stop - e.start) + removed) else (0, 0)

-- `replaced.get(start)`, with the text in place of its length
unfoldable pub replacement : List Edit → ℕ → Option Text
replacement [] start = none
replacement (e ∷ es) start =
    let rest = replacement es start in if e.start == start then some e.encoded else rest

abbrev pub new_length : ℕ → Option Text → ℕ
new_length n none = n
new_length n (some t) = length t

abbrev pub moved : ℕ → ℕ × ℕ → ℕ
moved start (added, removed) = (start + added) - removed

-- `_shifted`
unfoldable pub shifted : List Edit → ℕ × ℕ → ℕ × ℕ
unfolding shift replacement
shifted edits (start, stop) =
    let new_start = moved start (shift edits start) in
    (new_start, new_start + new_length (stop - start) (replacement edits start))

-- an edit put before the first one that starts after it
unfoldable pub insert_edit : Edit → List Edit → List Edit
insert_edit e [] = e ∷ []
insert_edit e (f ∷ es) =
    let rest = insert_edit e es in if ltb e.start f.start then e ∷ f ∷ es else f ∷ rest

unfoldable pub find_spans : Text → Spans → Option (List (ℕ × ℕ))
find_spans key [] = none
find_spans key ((k, v) ∷ spans) =
    let rest = find_spans key spans in if text_eq k key then some v else rest

abbrev pub add_edits : Text → List (ℕ × ℕ) → List Edit → List Edit
add_edits encoded [] edits = edits
add_edits encoded ((start, stop) ∷ v) edits =
    insert_edit (record { start = start; stop = stop; encoded = encoded })
      (add_edits encoded v edits)

abbrev pub shift_all : List Edit → List (ℕ × ℕ) → List (ℕ × ℕ)
shift_all edits [] = []
shift_all edits (span ∷ v) = shifted edits span ∷ shift_all edits v

abbrev pub shift_spans : List Edit → Spans → Spans
shift_spans edits [] = []
shift_spans edits ((k, v) ∷ spans) = (k, shift_all edits v) ∷ shift_spans edits spans

-- `{**fields, **updates}`
abbrev pub merged : Object → Object → Object
merged fields empty = fields
merged fields (member k v updates) = merged (set k v fields) updates

module _ (dumps : Json → Text) (dumps_object : Object → Text) where
  unfoldable pub from_fields : Object → JsonBody
  from_fields fields = record { fields = fields; text = dumps_object fields; spans = [] }

  abbrev more_edits : Json → Option (List (ℕ × ℕ)) → Option (List Edit) → Option (List Edit)
  more_edits value (some v) (some edits) = some (add_edits (dumps value) v edits)
  more_edits value _ _ = none

  -- the sorted edits, unless some key has no recorded span
  unfoldable pub edits_of : Spans → Object → Option (List Edit)
  unfolding find_spans insert_edit
  edits_of spans empty = some []
  edits_of spans (member key value updates) =
      more_edits value (find_spans key spans) (edits_of spans updates)

  abbrev pub with_edits : JsonBody → Object → Option (List Edit) → JsonBody
  with_edits body updates none = from_fields (merged body.fields updates)
  with_edits body updates (some edits) = record {
    fields = merged body.fields updates;
    text = splice 0 body.text edits;
    spans = shift_spans edits body.spans;
  }

  unfoldable pub replace_top_level : JsonBody → Object → JsonBody
  unfolding from_fields edits_of splice shifted
  replace_top_level body updates = with_edits body updates (edits_of body.spans updates)
