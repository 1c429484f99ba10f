-- ===== src/Database/Isolation.antt =====
-- That the shared connection of infra/db.py keeps the tasks' blocks apart: it refines a database in
-- which each task has statements of its own that take effect at its commit, all at once.
use mathlib.Core.Path.{subst}
use openai_api_bridge.Prelude.{
  on_test, ℕ, ◌≡◌, refl, sym, ap, ◌∙◌, ◌⊎◌, inl, inr, Bool, true, false, Option, none, some, List,
  [], ◌∷◌, ◌++◌, ◌&&◌, ◌==◌, if◌then◌else◌, Option-cases, arith,
}
use openai_api_bridge.Database.{
  execute, transaction, Event, enter, sql, commit, fail, Holder, Database, at_rest, writer, is_task,
  may_run, may_commit, entry, admit, step, run,
}

-- the specification: the data, and the statements that each task has not committed, in order
pub record Serial (D S : Type 0) : Type 0 where
  pub data' : D
  pub pending : List (ℕ × S)

abbrev pub fresh : {D S : Type 0} → D → Serial D S
fresh d = record { data' = d; pending = [] }

module _ {S : Type 0} where
  unfoldable pub of_task : ℕ → List (ℕ × S) → List (ℕ × S)
  of_task t [] = []
  of_task t ((u, s) ∷ p) = if u == t then (u, s) ∷ of_task t p else of_task t p

  unfoldable pub of_others : ℕ → List (ℕ × S) → List (ℕ × S)
  of_others t [] = []
  of_others t ((u, s) ∷ p) = if u == t then of_others t p else (u, s) ∷ of_others t p

  -- all of the statements are the task's
  abbrev IsOnly : ℕ → List (ℕ × S) → Type 0
  IsOnly t [] = Unit
  IsOnly t ((u, s) ∷ p) = (u ≡ t) × IsOnly t p

  snoc-IsOnly : (t : ℕ) (s : S) (p : List (ℕ × S)) → IsOnly t p → IsOnly t (p ++ (t, s) ∷ [])
  snoc-IsOnly t s [] h = (refl, tt)
  snoc-IsOnly t s ((u, r) ∷ p) (e, h) = (e, snoc-IsOnly t s p h)

  of_task-IsOnly : (t : ℕ) (p : List (ℕ × S)) → IsOnly t p → of_task t p ≡ p
  unfolding of_task
  of_task-IsOnly t [] h = refl
  of_task-IsOnly t ((u, r) ∷ p) (e, h) = ground (arith, e, of_task-IsOnly t p h)

  of_others-IsOnly : (t : ℕ) (p : List (ℕ × S)) → IsOnly t p → of_others t p ≡ []
  unfolding of_others
  of_others-IsOnly t [] h = refl
  of_others-IsOnly t ((u, r) ∷ p) (e, h) = ground (arith, e, of_others-IsOnly t p h)

matched : (g : Holder) (t : ℕ) → (g.task == t) ≡ true → g.task ≡ t
matched g t h = ground (arith, h)

same : (g : Holder) (t : ℕ) (b : Bool) → (g.task == t && b) ≡ true → g.task ≡ t
same g t b h = ground (arith, h)

module _ {D S : Type 0} (effect : S → D → D) where
  unfoldable pub replay : List (ℕ × S) → D → D
  replay [] d = d
  replay ((u, s) ∷ p) d = replay p (effect s d)

  abbrev pub committed_by : ℕ → Serial D S → Serial D S
  committed_by t sp = record {
    data' = replay (of_task t sp.pending) sp.data';
    pending = of_others t sp.pending;
  }

  unfoldable pub serial_step : Serial D S → Event S → Serial D S
  unfolding replay of_task of_others
  serial_step sp (enter t k) = sp
  serial_step sp (sql t s) = record sp { pending = sp.pending ++ (t, s) ∷ [] }
  serial_step sp (commit t) = committed_by t sp
  serial_step sp (fail t landed) =
      if landed then committed_by t sp else record sp { pending = of_others t sp.pending }

  unfoldable pub serial_run : Serial D S → List (Event S) → Serial D S
  unfolding serial_step
  serial_run sp [] = sp
  serial_run sp (e ∷ es) = serial_run (serial_step sp e) es

  replay-snoc :
      (p : List (ℕ × S)) (t : ℕ) (s : S) (d : D)
      → replay (p ++ (t, s) ∷ []) d ≡ effect s (replay p d)
  unfolding replay
  replay-snoc [] t s d = refl
  replay-snoc ((u, r) ∷ p) t s d = replay-snoc p t s (effect r d)

  abbrev Held : Option Holder → D → D → List (ℕ × S) → Type 0
  Held none committed current pending = (current ≡ committed) × (pending ≡ [])
  Held (some h) committed current pending =
      (current ≡ replay pending committed) × IsOnly h.task pending

  abbrev Refines : Database D → Serial D S → Type 0
  Refines db sp = (db.committed ≡ sp.data') × Held db.lock db.committed db.current sp.pending

  -- the events that cannot happen need no proof
  abbrev Post : Serial D S → Option (Database D) → Type 0
  Post sp none = Unit
  Post sp (some db) = Refines db sp

  Post-some :
      (sp : Serial D S) (db : Database D) (o : Option (Database D))
      → o ≡ some db
      → Post sp o
      → Refines db sp
  Post-some sp db o q h = subst (Post sp) q h

  commit-Refines :
      (g : Holder) (c u : D) (sp : Serial D S)
      → Refines (record { committed = c; current = u; lock = some g }) sp
      → Refines (record { committed = u; current = u; lock = none }) (committed_by g.task sp)
  commit-Refines g c u sp (q, (r, only)) = (
    r
        ∙ ap (replay sp.pending) q
        ∙ ap (λ p. replay p sp.data') (sym (of_task-IsOnly g.task sp.pending only)),
    (refl, of_others-IsOnly g.task sp.pending only),
  )

  step-Post :
      (lock : Option Holder) (c u : D) (sp : Serial D S) (e : Event S)
      → Refines (record { committed = c; current = u; lock = lock }) sp
      → Post (serial_step sp e) (step effect (record { committed = c; current = u; lock = lock }) e)
  unfolding step serial_step entry admit writer replay is_task
  step-Post none c u sp (enter t execute) (q, (r, e)) =
      (q, (r ∙ ap (λ p. replay p c) (sym e), subst (IsOnly t) (sym e) tt))
  step-Post none c u sp (enter t transaction) (q, (r, e)) =
      (q, (r ∙ ap (λ p. replay p c) (sym e), subst (IsOnly t) (sym e) tt))
  step-Post (some g) c u sp (enter t transaction) h = tt
  step-Post (some g) c u sp (enter t execute) h =
      on_test
        (λ n. Post sp (admit (record { committed = c; current = u; lock = some g }) t execute n))
        (is_task t (writer (some g))) (λ _. tt) (λ _. tt)
  step-Post none c u sp (sql t s) h = tt
  step-Post (some g) c u sp (sql t s) (q, (r, only)) =
      on_test (Post (serial_step sp (sql t s))) (g.task == t && may_run g)
        (λ b. (
          q,
          (
            ap (effect s) r ∙ sym (replay-snoc sp.pending t s c),
            subst (λ i. IsOnly i (sp.pending ++ (t, s) ∷ [])) (sym (same g t (may_run g) b))
                (snoc-IsOnly t s sp.pending
                  (subst (λ i. IsOnly i sp.pending) (same g t (may_run g) b) only)),
          ),
        ))
        (λ b. tt)
  step-Post none c u sp (commit t) h = tt
  step-Post (some g) c u sp (commit t) h =
      on_test (Post (committed_by t sp)) (g.task == t && may_commit g)
        (λ b.
          subst
            (λ i. Refines (record { committed = u; current = u; lock = none }) (committed_by i sp))
            (same g t (may_commit g) b) (commit-Refines g c u sp h))
        (λ b. tt)
  step-Post none c u sp (fail t landed) h = tt
  step-Post (some g) c u sp (fail t true) h =
      on_test (Post (committed_by t sp)) (g.task == t)
        (λ b.
          subst
            (λ i. Refines (record { committed = u; current = u; lock = none }) (committed_by i sp))
            (matched g t b) (commit-Refines g c u sp h))
        (λ b. tt)
  step-Post (some g) c u sp (fail t false) (q, (r, only)) =
      on_test (Post (record sp { pending = of_others t sp.pending })) (g.task == t)
        (λ b. (
          q,
          (
            refl,
            ap (λ i. of_others i sp.pending) (sym (matched g t b))
                ∙ of_others-IsOnly g.task sp.pending only,
          ),
        ))
        (λ b. tt)

  abbrev after : List (Event S) → Option (Database D) → Option (Database D)
  after es none = none
  after es (some db) = run effect db es

  settled :
      (lock : Option Holder) (db : Database D) (sp : Serial D S)
      → db.lock ≡ lock
      → Held db.lock db.committed db.current sp.pending
      → (db.current ≡ db.committed) ⊎ ((h : Holder) × (db.lock ≡ some h))
  settled none db sp q h = inl ((subst (λ l. Held l db.committed db.current sp.pending) q h).0)
  settled (some g) db sp q h = inr (g, q)

  run-Refines :
      (es : List (Event S)) (db db' : Database D) (sp : Serial D S)
      → Refines db sp
      → run effect db es ≡ some db'
      → Refines db' (serial_run sp es)
  unfolding run serial_run
  run-Refines [] db db' sp r h = subst (λ d. Refines d sp) (ground (arith, h)) r
  run-Refines (e ∷ es) db db' sp r h = elim (Option-cases (step effect db e)) [
    | inl p ↦ ground (arith, p, h)
    | inr (db1, p) ↦
        run-Refines es db1 db' (serial_step sp e)
          (Post-some (serial_step sp e) db1 (step effect db e) p
            (step-Post db.lock db.committed db.current sp e r))
          (sym (ap (after es) p) ∙ h)
  ]

  -- The shared connection refines a database in which the tasks do not see each other. However the
  -- tasks' statements, commits, failures and cancellations interleave, the data on disk is what that
  -- database holds, in which a task's statements take effect at its commit, in order and all at once,
  -- and at a rollback not at all. And when no task holds the write lock, nothing is left uncommitted.
  pub connection_refines :
      (es : List (Event S)) (d : D) (db : Database D)
      → run effect (at_rest d) es ≡ some db
      → (db.committed ≡ (serial_run (fresh d) es).data')
        × ((db.current ≡ db.committed) ⊎ ((h : Holder) × (db.lock ≡ some h)))
  connection_refines es d db h =
      let (q, held) = run-Refines es (at_rest d) db (fresh d) (refl, (refl, refl)) h in
      (q, settled db.lock db (serial_run (fresh d) es) refl held)
