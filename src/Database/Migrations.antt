-- ===== src/Database/Migrations.antt =====
-- That the migrations of infra/db.py, `run_migrations`, can be interrupted and run again.
use mathlib.Core.Path.{subst}
use openai_api_bridge.Prelude.{
  ℕ, ◌≤◌, ◌≡◌, refl, sym, ap, ◌∙◌, inl, inr, true, false, Option, none, List, [], ◌∷◌, leb,
  if◌then◌else◌, Bool-cases, on_test, arith,
}
use openai_api_bridge.Database.{Schema, fails_at, run_migrations}

-- no version of the list is above `n`
abbrev pub AllAtMost : List ℕ → ℕ → Type 0
AllAtMost [] n = Unit
AllAtMost (v ∷ vs) n = (v ≤ n) × AllAtMost vs n

below : (v n m : ℕ) → leb v n ≡ false → v ≤ m → n ≤ m
below v n m h le = ground (arith, h, le)

over : (v n m : ℕ) → leb v n ≡ true → n ≤ m → v ≤ m
over v n m h le = ground (arith, h, le)

at_most : (v n : ℕ) → leb v n ≡ true → v ≤ n
at_most v n h = ground (arith, h)

module _ {D : Type 0} (script : ℕ → D → D) where
  version-le :
      (fault : Option ℕ) (vs : List ℕ) (db : Schema D)
      → db.version ≤ (run_migrations script fault vs db).version
  unfolding run_migrations
  version-le fault [] db = omega arith
  version-le fault (v ∷ vs) db =
      let applied : Schema D = record { data' = script v db.data'; version = v } in
      on_test (λ (r : Schema D). db.version ≤ r.version) (leb v db.version)
        (λ _. version-le fault vs db)
        (λ b.
          on_test (λ (r : Schema D). db.version ≤ r.version) (fails_at fault v) (λ _. omega arith)
            (λ _.
              below v db.version (run_migrations script fault vs applied).version b
                (version-le fault vs applied)))

  skips :
      (v : ℕ) (vs : List ℕ) (db : Schema D)
      → v ≤ db.version
      → run_migrations script none (v ∷ vs) db ≡ run_migrations script none vs db
  unfolding run_migrations
  skips v vs db h = ground (arith, h)

  applies :
      (v : ℕ) (vs : List ℕ) (db : Schema D)
      → leb v db.version ≡ false
      → run_migrations script none (v ∷ vs) db
        ≡ run_migrations script none vs (record { data' = script v db.data'; version = v })
  unfolding run_migrations
  applies v vs db h = ground (arith, h)

  version_past :
      (v : ℕ) (vs : List ℕ) (fault : Option ℕ) (db : Schema D)
      → leb v db.version ≡ true
      → v ≤ (run_migrations script fault vs db).version
  version_past v vs fault db b =
      over v db.version (run_migrations script fault vs db).version b (version-le fault vs db)

  resumes :
      (fault : Option ℕ) (vs : List ℕ) (db : Schema D)
      → run_migrations script none vs (run_migrations script fault vs db)
        ≡ run_migrations script none vs db
  unfolding run_migrations
  resumes fault [] db = refl
  resumes fault (v ∷ vs) db =
      let applied : Schema D = record { data' = script v db.data'; version = v } in
      elim (Bool-cases (leb v db.version)) [
        | inl b ↦
            let past =
              skips v vs (run_migrations script fault vs db) (version_past v vs fault db b) in
            let start = skips v vs db (at_most v db.version b) in
            ap
              (λ c. run_migrations script none (v ∷ vs) (
                if c
                then run_migrations script fault vs db
                else if fails_at fault v
                then db
                else run_migrations script fault vs applied))
              b
            ∙ past
            ∙ resumes fault vs db
            ∙ sym start
        | inr b ↦
            ap
              (λ c. run_migrations script none (v ∷ vs) (
                if c
                then run_migrations script fault vs db
                else if fails_at fault v
                then db
                else run_migrations script fault vs applied))
              b
            ∙ on_test
                (λ r.
                  run_migrations script none (v ∷ vs) r ≡ run_migrations script none (v ∷ vs) db)
                (fails_at fault v) (λ _. refl)
                (λ _.
                  skips v vs (run_migrations script fault vs applied) (version-le fault vs applied)
                  ∙ resumes fault vs applied
                  ∙ sym (applies v vs db b))
      ]

  complete : (vs : List ℕ) (db : Schema D) → AllAtMost vs (run_migrations script none vs db).version
  complete [] db = tt
  complete (v ∷ vs) db =
      let applied : Schema D = record { data' = script v db.data'; version = v } in
      elim (Bool-cases (leb v db.version)) [
        | inl b ↦
            subst (λ r. AllAtMost (v ∷ vs) r.version) (sym (skips v vs db (at_most v db.version b)))
              (version_past v vs none db b, complete vs db)
        | inr b ↦
            subst (λ r. AllAtMost (v ∷ vs) r.version) (sym (applies v vs db b))
              (version-le none vs applied, complete vs applied)
      ]

-- However a run of the migrations is interrupted, a later run that goes through leaves the data and
-- the version that one uninterrupted run would have left: each script has taken effect once. And that
-- version is at least every version of the list.
pub migrations_resume :
    {D : Type 0} (script : ℕ → D → D) (fault : Option ℕ) (vs : List ℕ) (db : Schema D)
    → (run_migrations script none vs (run_migrations script fault vs db)
        ≡ run_migrations script none vs db)
      × AllAtMost vs (run_migrations script none vs db).version
migrations_resume script fault vs db = (resumes script fault vs db, complete script vs db)
