-- ===== src/Database/Tests.antt =====
-- Two tasks on the shared connection, an interrupted migration, and the theorems at them.
use openai_api_bridge.Prelude.{ℕ, ◌≡◌, ◌⊎◌, refl, false, none, some, List, [], ◌∷◌}
use openai_api_bridge.Database.{
  Event, enter, sql, commit, fail, execute, transaction, Holder, Database, at_rest, run, entry,
  raises, Schema, run_migrations, migrations,
}
use openai_api_bridge.Database.Isolation.{fresh, serial_run, connection_refines}
use openai_api_bridge.Database.Migrations.{AllAtMost, migrations_resume}

-- the data is the list of the rows that were inserted
abbrev add_row : ℕ → List ℕ → List ℕ
add_row n rows = n ∷ rows

-- task 1 rolls its block back; task 2 inserts afterwards
abbrev interleaved : List (Event ℕ)
interleaved =
    enter 1 transaction
    ∷ sql 1 10
    ∷ sql 1 11
    ∷ fail 1 false
    ∷ enter 2 execute
    ∷ sql 2 20
    ∷ commit 2
    ∷ []

abbrev only_second : Database (List ℕ)
only_second = record { committed = 20 ∷ []; current = 20 ∷ []; lock = none }

interleaved-run : run add_row (at_rest []) interleaved ≡ some only_second
unfolding run
interleaved-run = refl

-- no other task writes inside a block
blocked : run add_row (at_rest []) (enter 1 transaction ∷ enter 2 execute ∷ []) ≡ none
unfolding run
blocked = refl

reentered : entry execute 1 (some (record { task = 1; kind = transaction; ran = false })) ≡ raises
unfolding entry
reentered = refl

connection_refines_example :
    (only_second.committed ≡ (serial_run add_row (fresh []) interleaved).data')
    × ((only_second.current ≡ only_second.committed) ⊎ ((h : Holder) × (only_second.lock ≡ some h)))
connection_refines_example = connection_refines add_row interleaved [] only_second interleaved-run

abbrev empty_schema : Schema (List ℕ)
empty_schema = record { data' = []; version = 0 }

second_fails :
    run_migrations add_row (some 2) migrations empty_schema ≡ record { data' = 1 ∷ []; version = 1 }
unfolding run_migrations
second_fails = refl

migrations_resume_example :
    (run_migrations add_row none migrations
        (run_migrations add_row (some 2) migrations empty_schema)
      ≡ run_migrations add_row none migrations empty_schema)
    × AllAtMost migrations (run_migrations add_row none migrations empty_schema).version
migrations_resume_example = migrations_resume add_row (some 2) migrations empty_schema
