-- ===== src/Tasks/SingleFlight.antt =====
-- `SingleFlight` of infra/tasks.py: at most one live task for each key.
use openai_api_bridge.Prelude.{
  ℕ, ◌+◌, ◌<◌, String, ◌≡◌, ◌≢◌, refl, Option, none, some, List, [], ◌∷◌, arith, inl, inr,
  Bool-cases, Option-cases, ◌==◌, if◌then◌else◌, Dict, lookup, insert, remove, lookup-insert,
  lookup-remove, eq_iff,
}

-- `pending` holds the tasks that were created and whose done-callback has not run, with their keys
pub record SingleFlight : Type 0 where
  pub tasks : Dict ℕ
  pub pending : List (ℕ × String)
  pub next_id : ℕ

abbrev pub init : SingleFlight
init = record { tasks = []; pending = []; next_id = 0 }

unfoldable pub key_of : ℕ → List (ℕ × String) → Option String
key_of i [] = none
key_of i ((j, k) ∷ l) = if j == i then some k else key_of i l

unfoldable pub drop_task : ℕ → List (ℕ × String) → List (ℕ × String)
drop_task i [] = []
drop_task i ((j, k) ∷ l) = if j == i then l else (j, k) ∷ drop_task i l

unfoldable pub join_or_start : SingleFlight → String → SingleFlight × ℕ
join_or_start s key = elim (lookup key s.tasks) [
  | some existing ↦ (s, existing)
  | none ↦ (
    record s {
      tasks = insert key s.next_id s.tasks;
      pending = (s.next_id, key) ∷ s.pending;
      next_id = s.next_id + 1;
    },
    s.next_id,
  )
]

-- `_forget`, the done-callback of task `i` under `key`
unfoldable pub forget : SingleFlight → ℕ → String → SingleFlight
forget s i key = record s {
  pending = drop_task i s.pending;
  tasks = elim (lookup key s.tasks) [
    | none ↦ s.tasks
    | some j ↦ if j == i then remove key s.tasks else s.tasks
  ];
}

pub data Step (s t : SingleFlight) : Type 0 where
  joined : (key : String) → t ≡ (join_or_start s key).0 → Step s t
  forgot : (i : ℕ) (key : String) → key_of i s.pending ≡ some key → t ≡ forget s i key → Step s t

pub data Reach (s : SingleFlight) : SingleFlight → Type 0 where
  here : Reach s s
  next : {t u : SingleFlight} → Reach s t → Step t u → Reach s u

-- the map holds exactly the pending tasks
pub record IsExact (s : SingleFlight) : Type 0 where
  pub tracked : (i : ℕ) (key : String) → key_of i s.pending ≡ some key → lookup key s.tasks ≡ some i
  pub live : (i : ℕ) (key : String) → lookup key s.tasks ≡ some i → key_of i s.pending ≡ some key
  pub below : (i : ℕ) (key : String) → key_of i s.pending ≡ some key → i < s.next_id
  pub once : (i : ℕ) → key_of i (drop_task i s.pending) ≡ none

key_of-drop_task_ne :
    (i j : ℕ) (l : List (ℕ × String)) → i ≢ j → key_of j (drop_task i l) ≡ key_of j l
unfolding key_of drop_task
key_of-drop_task_ne i j [] h = refl
key_of-drop_task_ne i j ((k, v) ∷ l) h = ground (arith, key_of-drop_task_ne i j l)

drop_task_comm :
    (i j : ℕ) (l : List (ℕ × String)) → drop_task i (drop_task j l) ≡ drop_task j (drop_task i l)
unfolding drop_task
drop_task_comm i j [] = refl
drop_task_comm i j ((k, v) ∷ l) = ground (arith, drop_task_comm i j l)

key_of-drop_task-none :
    (i j : ℕ) (l : List (ℕ × String)) → key_of i l ≡ none → key_of i (drop_task j l) ≡ none
unfolding key_of drop_task
key_of-drop_task-none i j [] h = refl
key_of-drop_task-none i j ((k, v) ∷ l) h = ground (arith, key_of-drop_task-none i j l)

fresh_once :
    (n : ℕ) (l : List (ℕ × String))
    → ((i : ℕ) (key : String) → key_of i l ≡ some key → i < n)
    → key_of n l ≡ none
fresh_once n l below = elim (Option-cases (key_of n l)) [
  | inl p ↦ p
  | inr (key, p) ↦ absurd (let q : n < n = below n key p in omega arith)
]

start-IsExact :
    (s : SingleFlight) (key : String)
    → lookup key s.tasks ≡ none
    → IsExact s
    → IsExact (record s {
      tasks = insert key s.next_id s.tasks;
      pending = (s.next_id, key) ∷ s.pending;
      next_id = s.next_id + 1;
    })
unfolding key_of drop_task
start-IsExact s key absent h = record {
  tracked = λ i k e.
      ground (arith, lookup-insert key k s.next_id s.tasks, eq_iff key k, h.tracked i k, absent, e);
  live = λ i k e. ground (
    arith,
    lookup-insert key k s.next_id s.tasks,
    eq_iff key k,
    h.live i k,
    h.below i k,
    absent,
    e,
  );
  below = λ i k e. ground (arith, h.below i k, e);
  once = λ i. ground (arith, h.once i, fresh_once s.next_id s.pending h.below);
}

forget-IsExact :
    (s : SingleFlight) (i : ℕ) (key : String)
    → key_of i s.pending ≡ some key
    → IsExact s
    → IsExact (forget s i key)
unfolding forget
forget-IsExact s i key e h =
    let t : lookup key s.tasks ≡ some i = h.tracked i key e in
    rw t (record {
      tracked = λ j k f. elim (Bool-cases (i == j)) [
        | inl p ↦ absurd (ground (arith, h.once i, f))
        | inr p ↦ ground (
          arith,
          lookup-remove key k s.tasks,
          eq_iff key k,
          t,
          f,
          key_of-drop_task_ne i j s.pending,
          h.tracked j k,
        )
      ];
      live = λ j k f. ground (
        arith,
        lookup-remove key k s.tasks,
        eq_iff key k,
        h.live j k,
        e,
        f,
        key_of-drop_task_ne i j s.pending,
      );
      below = λ j k f. elim (Bool-cases (i == j)) [
        | inl p ↦ absurd (ground (arith, h.once i, f))
        | inr p ↦ ground (arith, key_of-drop_task_ne i j s.pending, h.below j k, f)
      ];
      once = λ j.
          rw (drop_task_comm j i s.pending)
            (key_of-drop_task-none j i (drop_task j s.pending) (h.once j));
    })

Step-IsExact : {s t : SingleFlight} → Step s t → IsExact s → IsExact t
unfolding join_or_start
Step-IsExact {s} (joined key e) h = elim (Option-cases (lookup key s.tasks)) [
  | inl p ↦ rw e (rw (p, join_or_start) (start-IsExact s key p h))
  | inr (i, p) ↦ rw e (rw (p, join_or_start) h)
]
Step-IsExact {s} (forgot i key f e) h = rw e (forget-IsExact s i key f h)

init-IsExact : IsExact init
unfolding key_of lookup drop_task
init-IsExact = record {
  tracked = λ i k e. cc;
  live = λ i k e. cc;
  below = λ i k e. cc;
  once = λ i. refl;
}

Reach-IsExact : {s : SingleFlight} → Reach init s → IsExact s
Reach-IsExact here = init-IsExact
Reach-IsExact (next r st) = Step-IsExact st (Reach-IsExact r)

-- However callers and done-callbacks interleave, two pending tasks of one key are one task, and the
-- map holds it: no pending task is untracked.
pub at_most_one :
    {s : SingleFlight} (i j : ℕ) (key : String)
    → Reach init s
    → key_of i s.pending ≡ some key
    → key_of j s.pending ≡ some key
    → (i ≡ j) × (lookup key s.tasks ≡ some i)
at_most_one i j key r p q =
    let a = (Reach-IsExact r).tracked i key p in
    let b = (Reach-IsExact r).tracked j key q in (cc (a, b), a)

-- In every reachable state a call returns a task that is pending under its key. Where one is already
-- pending, the call returns that one and starts none.
pub join_or_start_joins :
    {s : SingleFlight} (i : ℕ) (key : String)
    → Reach init s
    → (key_of (join_or_start s key).1 (join_or_start s key).0.pending ≡ some key)
      × (key_of i s.pending ≡ some key → join_or_start s key ≡ (s, i))
unfolding join_or_start
join_or_start_joins {s} i key r =
    let h = Reach-IsExact r in
    elim (Option-cases (lookup key s.tasks)) [
      | inl p ↦
          rw (p, join_or_start)
            (unfold key_of in ground arith, λ f. absurd (let t = h.tracked i key f in cc (t, p)))
      | inr (k, p) ↦
          rw (p, join_or_start) (h.live k key p, λ f. let t = h.tracked i key f in cc (t, p))
    ]
