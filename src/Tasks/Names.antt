-- ===== src/Tasks/Names.antt =====
-- The index by name: no entry dangles, and a finishing task never removes its successor's entry.
use openai_api_bridge.Prelude.{
  ℕ, ◌<◌, String, ◌≡◌, ◌≢◌, refl, ap, Option, none, some, List, [], ◌∷◌, arith, inl, inr,
  Bool-cases, true, false, leb, not, ◌==◌, Option-cases, lookup, ◌∙◌, Dict, lookup-insert,
  lookup-remove, eq_iff, str_eq, if◌then◌else◌,
}
use openai_api_bridge.Tasks.{
  Task, queued, running, finished, TaskScheduler, init, find, replace, discard, submit, start,
  abandon, finish, forget, cleanup, cancel, request_cancel, reserve, release_reservation, in_flight,
  is_done,
}
use openai_api_bridge.Tasks.Steps.{
  Step, Background, background, submitted, started, abandoned, ended, cleaned, cancelled, claimed,
  released, Reach, here, next, cancel_cases,
}

-- every name in the index is that of a task in the set, and ids are handed out in order
pub record IsIndexed (ts : List Task) (d : Dict ℕ) (n : ℕ) : Type 0 where
  pub live :
      (name : String) (i : ℕ)
      → lookup name d ≡ some i
      → (t : Task) × (find i ts ≡ some t) × (t.name ≡ some name)
  pub below : (i : ℕ) (t : Task) → find i ts ≡ some t → i < n

abbrev pub IsTracked : TaskScheduler → Type 0
IsTracked s = IsIndexed s.tasks s.tasks_by_name s.next_id

pub find-replace :
    (j : ℕ) (u : Task) (ts : List Task)
    → find j (replace u ts)
      ≡ (if u.id == j then elim (find j ts) [ none ↦ none | some _ ↦ some u ] else find j ts)
unfolding find replace
find-replace j u [] = ground arith
find-replace j u (t ∷ ts) = ground (arith, find-replace j u ts)

pub find-discard_ne : (i j : ℕ) (ts : List Task) → i ≢ j → find j (discard i ts) ≡ find j ts
unfolding find discard
find-discard_ne i j [] h = refl
find-discard_ne i j (t ∷ ts) h = ground (arith, find-discard_ne i j ts)

-- The done-callback of a task removes its own entry alone: an entry that names another task, a
-- successor under the same name among them, stays.
pub forget-keeps_other :
    (name : Option String) (i j : ℕ) (key : String) (s : TaskScheduler)
    → i ≢ j
    → lookup key s.tasks_by_name ≡ some j
    → lookup key (forget name i s.tasks_by_name) ≡ some j
unfolding forget
forget-keeps_other none i j key s h e = e
forget-keeps_other (some name) i j key s h e = elim (Option-cases (lookup name s.tasks_by_name)) [
  | inl p ↦ rw (p, forget) e
  | inr (k, p) ↦ ground (arith, lookup-remove name key s.tasks_by_name, eq_iff name key, p, e)
]

forget-from :
    (name : Option String) (i j : ℕ) (key : String) (d : Dict ℕ)
    → lookup key (forget name i d) ≡ some j
    → lookup key d ≡ some j
unfolding forget
forget-from none i j key d e = e
forget-from (some name) i j key d e = elim (Option-cases (lookup name d)) [
  | inl p ↦ rw (p, forget) at e
  | inr (k, p) ↦ ground (arith, lookup-remove name key d, eq_iff name key, p, e)
]

forget_self :
    (i : ℕ) (key : String) (d : Dict ℕ)
    → lookup key d ≡ some i
    → lookup key (forget (some key) i d) ≡ none
unfolding forget
forget_self i key d e = ground (arith, lookup-remove key key d, eq_iff key key, e)

-- What the callback leaves in the index does not name this task.
forget-ne :
    (t : Task) (ts : List Task) (d : Dict ℕ) (n : ℕ) (key : String) (j : ℕ)
    → IsIndexed ts d n
    → find t.id ts ≡ some t
    → lookup key (forget t.name t.id d) ≡ some j
    → t.id ≢ j
forget-ne t ts d n key j h f e = λ same.
    let before : lookup key d ≡ some t.id = rw same (forget-from t.name t.id j key d e) in
    let (u, found, named) = h.live key t.id before in
    let named' : t.name ≡ some key = cc (found, f, named) in
    let gone : lookup key (forget t.name t.id d) ≡ none =
      rw named' (forget_self t.id key d before) in
    cc (gone, e)

replace-IsIndexed :
    (u v : Task) (ts : List Task) (d : Dict ℕ) (n : ℕ)
    → find u.id ts ≡ some u
    → v.id ≡ u.id
    → v.name ≡ u.name
    → IsIndexed ts d n
    → IsIndexed (replace v ts) d n
replace-IsIndexed u v ts d n f same named h = record {
  live = λ name i e.
      let (t, found, k) = h.live name i e in
      elim (Bool-cases (v.id == i)) [
        | inl p ↦ (v, ground (arith, find-replace i v ts), ground arith)
        | inr p ↦ (t, ground (arith, find-replace i v ts), k)
      ];
  below = λ i t e. elim (Option-cases (find i ts)) [
    | inl p ↦ absurd (ground (arith, find-replace i v ts))
    | inr (w, p) ↦ h.below i w p
  ];
}

find-discard_from :
    (i k : ℕ) (ts : List Task) (u : Task)
    → find i (discard k ts) ≡ some u
    → (w : Task) × (find i ts ≡ some w)
unfolding find discard
find-discard_from i k [] u e = cc
find-discard_from i k (x ∷ xs) u e = elim (Bool-cases (x.id == i)) [
  | inl p ↦ (x, rw p)
  | inr p ↦ elim (Bool-cases (x.id == k)) [
    | inl q ↦ (u, ground arith)
    | inr q ↦ let (w, f) = find-discard_from i k xs u (ground arith) in (w, rw p f)
  ]
]

cleanup-IsIndexed :
    (t : Task) (ts : List Task) (d : Dict ℕ) (n : ℕ)
    → find t.id ts ≡ some t
    → IsIndexed ts d n
    → IsIndexed (discard t.id ts) (forget t.name t.id d) n
cleanup-IsIndexed t ts d n f h = record {
  live = λ name i e.
      let (u, found, k) = h.live name i (forget-from t.name t.id i name d e) in
      (u, find-discard_ne t.id i ts (forget-ne t ts d n name i h f e) ∙ found, k);
  below = λ i u e. let (w, f') = find-discard_from i t.id ts u e in h.below i w f';
}

submit-IsIndexed :
    (s : TaskScheduler) (name : Option String) → IsTracked s → IsTracked (submit s name).0
unfolding submit find
submit-IsIndexed s none h = record {
  live = λ key i e.
      let (t, found, k) = h.live key i e in
      let old : i < s.next_id = h.below i t found in (t, ground arith, k);
  below = λ i t e. elim (Bool-cases (s.next_id == i)) [
    | inl p ↦ ground arith
    | inr p ↦ let old : i < s.next_id = h.below i t (ground arith) in omega arith
  ];
}
submit-IsIndexed s (some name) h = record {
  live = λ key i e. elim (Bool-cases (str_eq name key)) [
    | inl p ↦
        let new : i ≡ s.next_id =
          ground (arith, lookup-insert name key s.next_id s.tasks_by_name) in
        (
          record { id = s.next_id; name = some name; phase = queued; cancel_requested = false },
          ground arith,
          ap some ((eq_iff name key).0 p),
        )
    | inr p ↦
        let (t, found, k) =
          h.live key i (ground (arith, lookup-insert name key s.next_id s.tasks_by_name)) in
        let old : i < s.next_id = h.below i t found in (t, ground arith, k)
  ];
  below = λ i t e. elim (Bool-cases (s.next_id == i)) [
    | inl p ↦ ground arith
    | inr p ↦ let old : i < s.next_id = h.below i t (ground arith) in omega arith
  ];
}

Background-IsTracked : {s t : TaskScheduler} → Background s t → IsTracked s → IsTracked t
Background-IsTracked {s} (started u f pos e) h = rw e (
    unfold start in
    replace-IsIndexed u (record u { phase = running }) s.tasks _ _ f.found refl refl h)
Background-IsTracked {s} (abandoned u f e) h = rw e (
    unfold abandon in
    replace-IsIndexed u (record u { phase = finished }) s.tasks _ _ f.found refl refl h)
Background-IsTracked {s} (ended u f e) h = rw e (
    unfold finish in
    replace-IsIndexed u (record u { phase = finished }) s.tasks _ _ f.found refl refl h)
Background-IsTracked {s} (cleaned u f e) h =
    rw e (unfold cleanup in cleanup-IsIndexed u s.tasks s.tasks_by_name s.next_id f.found h)
Background-IsTracked {s} (cancelled name e) h = elim (cancel_cases s name) [
  | inl p ↦ rw (e, p) h
  | inr (u, f, _, p) ↦
      rw (e, p)
        (unfold request_cancel in
          replace-IsIndexed u (record u { cancel_requested = true }) s.tasks _ _ f refl refl h)
]

-- Every step of the scheduler or of the event loop keeps the index: each of its entries is that of
-- a task which is still in the set and was submitted under that name.
pub Step-IsTracked : {s t : TaskScheduler} → Step s t → IsTracked s → IsTracked t
Step-IsTracked {s} (submitted name e) h = rw e (submit-IsIndexed s name h)
Step-IsTracked {s} (claimed capacity e) h = rw e (
    unfold reserve in
    elim (Bool-cases (leb capacity (in_flight s))) [ inl p ↦ rw p h | inr p ↦ rw p h ])
Step-IsTracked {s} (released pos e) h = rw e (unfold release_reservation in h)
Step-IsTracked (background b) h = Background-IsTracked b h

init-IsTracked : (n : ℕ) {s : TaskScheduler} → init n ≡ some s → IsTracked s
unfolding init find lookup
init-IsTracked n {s} h = record { live = λ key i e. ground arith; below = λ i t e. ground arith }

Reach-IsTracked : {s t : TaskScheduler} → IsTracked s → Reach s t → IsTracked t
Reach-IsTracked h here = h
Reach-IsTracked h (next r st) = Step-IsTracked st (Reach-IsTracked h r)

-- In every state that a scheduler reaches, `cancel` finds a task for each name of the index: it
-- returns true exactly when the name is there and its task is not done.
pub cancel_exact :
    (n : ℕ) {s t : TaskScheduler} (name : String) (i : ℕ)
    → init n ≡ some s
    → Reach s t
    → lookup name t.tasks_by_name ≡ some i
    → (u : Task) × (find i t.tasks ≡ some u)
      × (u.name ≡ some name)
      × ((cancel t name).1 ≡ not (is_done u.phase))
unfolding cancel
cancel_exact n {s} {t} name i h r e =
    let (u, found, named) = (Reach-IsTracked (init-IsTracked n h) r).live name i e in
    (u, found, named, rw (e, found, cancel) (ground arith))
