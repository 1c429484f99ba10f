-- ===== src/Database.antt =====
-- infra/db.py: the one connection that all tasks share, its write lock, and the migrations. What a
-- statement does to the data is a parameter; a statement that raises does nothing to it. An event is
-- what happens between two awaits, so a list of events is one interleaving of the tasks.
pub mod Isolation
pub mod Migrations
mod Tests
use openai_api_bridge.Prelude.{
  ℕ, zero, suc, ◌+◌, Bool, true, false, Option, none, some, List, [], ◌∷◌, ◌++◌, ◌&&◌, not, leb,
  ◌==◌, if◌then◌else◌,
}

-- which of the two ways in: `execute`, which runs one statement, or a `transaction` block
pub data Kind : Type 0 where
  execute transaction : Kind

pub data Event (S : Type 0) : Type 0 where
  -- the task takes the write lock
  enter : ℕ → Kind → Event S
  -- its statement runs
  sql : ℕ → S → Event S
  -- its commit goes through
  commit : ℕ → Event S
  -- an exception or a cancellation: the rollback, after the commit if that had landed all the same
  fail : ℕ → Bool → Event S

-- who holds the write lock, how it came in, and whether the statement of an `execute` has run
pub record Holder : Type 0 where
  pub task : ℕ
  pub kind : Kind
  pub ran : Bool

-- the data on disk, and the data as the connection sees it, with what is not committed. A
-- rollback always goes through.
pub record Database (D : Type 0) : Type 0 where
  pub committed : D
  pub current : D
  pub lock : Option Holder

abbrev pub at_rest : {D : Type 0} → D → Database D
at_rest d = record { committed = d; current = d; lock = none }

-- `_writer`: the task inside a `transaction` block
unfoldable pub writer : Option Holder → Option ℕ
writer none = none
writer (some h) = elim h.kind [ execute ↦ none | transaction ↦ some h.task ]

unfoldable pub is_task : ℕ → Option ℕ → Bool
is_task t none = false
is_task t (some u) = u == t

-- whether the event's task may run the statement: one for an `execute`, any number in a block
unfoldable pub may_run : Holder → Bool
may_run h = elim h.kind [ execute ↦ not h.ran | transaction ↦ true ]

-- whether it may commit: an `execute` commits once its statement has run
unfoldable pub may_commit : Holder → Bool
may_commit h = elim h.kind [ execute ↦ h.ran | transaction ↦ true ]

-- how task `t` comes in: an `execute` inside the task's own block raises; otherwise it takes the lock,
-- or waits for it
pub data Entry : Type 0 where
  raises waits goes_on : Entry

abbrev when_free : Option Holder → Entry
when_free none = goes_on
when_free (some _) = waits

unfoldable pub entry : Kind → ℕ → Option Holder → Entry
unfolding writer is_task
entry execute t lock = if is_task t (writer lock) then raises else when_free lock
entry transaction t lock = when_free lock

unfoldable pub admit : {D : Type 0} → Database D → ℕ → Kind → Entry → Option (Database D)
admit db t k goes_on = some (record db { lock = some (record { task = t; kind = k; ran = false }) })
admit db t k waits = none
admit db t k raises = none

module _ {D S : Type 0} (effect : S → D → D) where
  -- the state after the event, none where the event cannot happen
  unfoldable pub step : Database D → Event S → Option (Database D)
  unfolding may_run may_commit entry admit
  step db (enter t k) = admit db t k (entry k t db.lock)
  step db (sql t s) = elim db.lock [
    | none ↦ none
    | some h ↦
        if h.task == t && may_run h
        then some
            (record db { current = effect s db.current; lock = some (record h { ran = true }) })
        else none
  ]
  step db (commit t) = elim db.lock [
    | none ↦ none
    | some h ↦
        if h.task == t && may_commit h
        then some (record db { committed = db.current; lock = none })
        else none
  ]
  step db (fail t landed) = elim db.lock [
    | none ↦ none
    | some h ↦
        if h.task == t
        then some (
            if landed
            then record db { committed = db.current; lock = none }
            else record db { current = db.committed; lock = none })
        else none
  ]

  unfoldable pub run : Database D → List (Event S) → Option (Database D)
  unfolding step
  run db [] = some db
  run db (e ∷ es) = elim (step db e) [ none ↦ none | some db' ↦ run db' es ]

-- `run_migrations`. `script v` is what the migration to version `v` does; each is one transaction,
-- together with the record of its version. `fault` says at which version the process or the script
-- fails, if at any: that transaction is rolled back and nothing later runs.
pub record Schema (D : Type 0) : Type 0 where
  pub data' : D
  pub version : ℕ

abbrev pub fails_at : Option ℕ → ℕ → Bool
fails_at none v = false
fails_at (some w) v = w == v

module _ {D : Type 0} (script : ℕ → D → D) where
  unfoldable pub run_migrations : Option ℕ → List ℕ → Schema D → Schema D
  run_migrations fault [] db = db
  run_migrations fault (v ∷ vs) db =
      let skipped = run_migrations fault vs db in
      let applied = run_migrations fault vs (record { data' = script v db.data'; version = v }) in
      if leb v db.version then skipped else if fails_at fault v then db else applied

-- the versions that are shipped
abbrev pub migrations : List ℕ
migrations = 1 ∷ 2 ∷ []
