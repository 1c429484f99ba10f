-- ===== src/Tasks.antt =====
-- infra/tasks.py: `TaskScheduler`, with its reservations. The event loop's steps between two calls,
-- a task that takes a permit, that ends, and whose done-callback runs, are functions here; any
-- interleaving of them is a run of the step relation in `Tasks.Steps`.
pub mod Steps
pub mod Names
pub mod Admission
pub mod SingleFlight
mod Tests
use openai_api_bridge.Prelude.{
  ℕ, zero, suc, ◌+◌, ◌-◌, String, Bool, true, false, Option, none, some, List, [], ◌∷◌, ltb, leb,
  ◌==◌, if◌then◌else◌, length, Dict, lookup, insert, remove,
}

-- `finished` is a task that is done and whose done-callback has not run yet
pub data Phase : Type 0 where
  queued running finished : Phase

pub record Task : Type 0 where
  pub id : ℕ
  pub name : Option String
  pub phase : Phase
  pub cancel_requested : Bool

pub record TaskScheduler : Type 0 where
  pub max_concurrent : ℕ
  pub permits : ℕ
  pub reserved : ℕ
  pub tasks : List Task
  pub tasks_by_name : Dict ℕ
  pub next_id : ℕ

-- `none` is the `ValueError`
unfoldable pub init : ℕ → Option TaskScheduler
init max_concurrent =
    if ltb max_concurrent 1
    then none
    else some (record {
      max_concurrent = max_concurrent;
      permits = max_concurrent;
      reserved = 0;
      tasks = [];
      tasks_by_name = [];
      next_id = 0;
    })

unfoldable pub find : ℕ → List Task → Option Task
find i [] = none
find i (t ∷ ts) = if t.id == i then some t else find i ts

unfoldable pub replace : Task → List Task → List Task
replace t [] = []
replace t (u ∷ ts) = if u.id == t.id then t ∷ ts else u ∷ replace t ts

unfoldable pub discard : ℕ → List Task → List Task
discard i [] = []
discard i (t ∷ ts) = if t.id == i then ts else t ∷ discard i ts

unfoldable pub register : Option String → ℕ → Dict ℕ → Dict ℕ
register none i d = d
register (some name) i d = insert name i d

unfoldable pub submit : TaskScheduler → Option String → TaskScheduler × ℕ
unfolding register
submit s name = (
  record s {
    tasks =
        record { id = s.next_id; name = name; phase = queued; cancel_requested = false } ∷ s.tasks;
    tasks_by_name = register name s.next_id s.tasks_by_name;
    next_id = s.next_id + 1;
  },
  s.next_id,
)

-- `_runner` takes a permit
unfoldable pub start : TaskScheduler → Task → TaskScheduler
start s t = record s {
  permits = s.permits - 1;
  tasks = replace (record t { phase = running }) s.tasks;
}

-- `_runner` is cancelled while it waits for its permit
unfoldable pub abandon : TaskScheduler → Task → TaskScheduler
abandon s t = record s { tasks = replace (record t { phase = finished }) s.tasks }

-- `_runner` ends, however the coroutine ended: its `finally` gives the permit back
unfoldable pub finish : TaskScheduler → Task → TaskScheduler
finish s t = record s {
  permits = s.permits + 1;
  tasks = replace (record t { phase = finished }) s.tasks;
}

-- the name's entry goes only if it is this very task's
unfoldable pub forget : Option String → ℕ → Dict ℕ → Dict ℕ
forget none i d = d
forget (some name) i d = elim (lookup name d) [
  | none ↦ d
  | some j ↦ if j == i then remove name d else d
]

-- the done-callback
unfoldable pub cleanup : TaskScheduler → Task → TaskScheduler
unfolding forget
cleanup s t = record s {
  tasks = discard t.id s.tasks;
  tasks_by_name = forget t.name t.id s.tasks_by_name;
}

-- `task.done()`
unfoldable pub is_done : Phase → Bool
is_done finished = true
is_done _ = false

-- `task.cancel()` on a task that is not done
unfoldable pub request_cancel : TaskScheduler → Task → TaskScheduler
request_cancel s t = record s { tasks = replace (record t { cancel_requested = true }) s.tasks }

-- A name whose task is gone from the set would be a dangling entry: `Tasks.Names` shows that there
-- is none.
unfoldable pub cancel : TaskScheduler → String → TaskScheduler × Bool
unfolding is_done request_cancel
cancel s name = elim (lookup name s.tasks_by_name) [
  | none ↦ (s, false)
  | some i ↦ elim (find i s.tasks) [
    | none ↦ (s, false)
    | some t ↦ if is_done t.phase then (s, false) else (request_cancel s t, true)
  ]
]

unfoldable pub in_flight : TaskScheduler → ℕ
in_flight s = length s.tasks + s.reserved

pub data Reserved : Type 0 where
  slot : Reserved
  scheduler_full : ℕ → ℕ → Reserved

unfoldable pub reserve : TaskScheduler → ℕ → TaskScheduler × Reserved
unfolding in_flight
reserve s capacity =
    if leb capacity (in_flight s)
    then (s, scheduler_full (in_flight s) capacity)
    else (record s { reserved = s.reserved + 1 }, slot)

unfoldable pub release_reservation : TaskScheduler → TaskScheduler
release_reservation s = record s { reserved = s.reserved - 1 }

-- `Reservation.__exit__`: `held` is whether it still names its scheduler
unfoldable pub exit_reservation : Bool → TaskScheduler → TaskScheduler × Bool
unfolding release_reservation
exit_reservation true s = (release_reservation s, false)
exit_reservation false s = (s, false)
