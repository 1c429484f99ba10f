-- ===== src/Runner/Finish.antt =====
-- What the job's row says when the runner is done.
use text.Mathlib.TextPositions.{eq_refl}
use openai_api_bridge.Prelude.{
  ℕ, String, ◌≡◌, refl, inl, inr, true, false, Option, none, some, ◌&&◌, if◌then◌else◌, str_eq,
  Bool-cases, Option-cases,
}
use openai_api_bridge.Errors.{Message, Exc, bridge, cancelled, timeout_error, other}
use openai_api_bridge.JobStore.{
  VideoJob, JobStore, Patch, get, update, patched, is_active, as_failed, fail_if_active,
}
use openai_api_bridge.JobStore.Rows.{get-update, get-fail_where, get-id}
use openai_api_bridge.Runner.{
  Await, write, write_if_active, Env, failure, passed, timed_out, internal_error, job_cancelled,
  handle,
}

-- the row of a job, if it satisfies `P`
abbrev pub RowIs : (VideoJob → Type 0) → String → JobStore → Type 0
RowIs P i s = (j : VideoJob) × (get s i ≡ some j) × P j

abbrev pub IsThere : String → JobStore → Type 0
IsThere = RowIs (λ _. Unit {0})

-- what other tasks do meanwhile keeps the row (a prune removes terminal rows alone)
pub record IsTame (i : String) (a : Await) : Type 0 where
  pub keeps : (s : JobStore) → IsThere i s → IsThere i (a.others s)

abbrev pub IsTame? : String → Option (String × Await) → Type 0
IsTame? i none = Unit
IsTame? i (some (_, a)) = IsTame i a

pub record IsFair (i : String) (env : Env) : Type 0 where
  pub start : IsTame i env.on_start
  pub upstream : IsTame? i env.upstream
  pub complete : IsTame i env.on_complete
  pub fail : IsTame i env.on_fail
  -- a write that returns has landed
  pub durable : env.on_complete.raises ≡ none → env.on_complete.lands ≡ true
  -- the last write, of the `except` clause, reaches the table
  pub recorded : env.on_fail.lands ≡ true

pub update_self :
    (i : String) (now : ℕ) (p : Patch) (s : JobStore) (j : VideoJob)
    → get s i ≡ some j
    → get (update s now i p) i ≡ some (patched now p j)
update_self i now p s j h = rw (get-update s now i i p) (rw h (rw (eq_refl i)))

pub write-IsThere :
    (i : String) (p : Patch) (a : Await) (s : JobStore)
    → IsTame i a
    → IsThere i s
    → IsThere i (write i p a s).1
unfolding write
write-IsThere i p a s t h =
    let (j, e, _) = t.keeps s h in
    elim (Bool-cases a.lands) [
      | inl l ↦ rw l (patched a.now p j, update_self i a.now p (a.others s) j e, tt)
      | inr l ↦ rw l (j, e, tt)
    ]

-- An unconditional write that lands gives the row the patch, whatever it said before.
pub write_lands :
    (i : String) (p : Patch) (a : Await) (s : JobStore)
    → IsTame i a
    → a.lands ≡ true
    → IsThere i s
    → (j : VideoJob) × (get (a.others s) i ≡ some j)
      × (get (write i p a s).1 i ≡ some (patched a.now p j))
unfolding write
write_lands i p a s t l h =
    let (j, e, _) = t.keeps s h in (j, e, rw l (update_self i a.now p (a.others s) j e))

-- A guarded write that lands leaves a terminal row as it is and fails an active one.
pub write_if_active_lands :
    (i : String) (m : Message) (a : Await) (s : JobStore)
    → IsTame i a
    → a.lands ≡ true
    → IsThere i s
    → (j : VideoJob) × (get (a.others s) i ≡ some j)
      × (get (write_if_active i m a s).1 i
          ≡ some (if is_active j.status then as_failed a.now m j else j))
unfolding write_if_active fail_if_active
write_if_active_lands i m a s t l h =
    let (j, e, _) = t.keeps s h in
    let k : j.id ≡ i = get-id (a.others s) i j e in
    (
      j,
      e,
      rw l (
          rw (get-fail_where (λ j. str_eq j.id i && is_active j.status) (a.others s) a.now m i)
            (rw e (rw k (rw (eq_refl i))))),
    )

abbrev pub IsTerminal : VideoJob → Type 0
IsTerminal j = is_active j.status ≡ false

fails_lands :
    (i : String) (m : Message) (a : Await) (s : JobStore)
    → IsTame i a
    → a.lands ≡ true
    → IsThere i s
    → RowIs IsTerminal i (write i (failure m) a s).1
fails_lands i m a s t l h =
    let (j, _, e) = write_lands i (failure m) a s t l h in
    (patched a.now (failure m) j, e, unfold patched is_active in refl)

guards_lands :
    (i : String) (m : Message) (a : Await) (s : JobStore)
    → IsTame i a
    → a.lands ≡ true
    → IsThere i s
    → RowIs IsTerminal i (write_if_active i m a s).1
guards_lands i m a s t l h =
    let (j, _, e) = write_if_active_lands i m a s t l h in
    elim (Bool-cases (is_active j.status)) [
      | inl p ↦ (as_failed a.now m j, rw p at e, unfold as_failed is_active in refl)
      | inr p ↦ (j, rw p at e, p)
    ]

-- Whatever was raised, the `except` clause leaves the row terminal.
pub handle-IsTerminal :
    (i : String) (seconds : Option ℕ) (env : Env) (e : Exc) (s : JobStore)
    → IsFair i env
    → IsThere i s
    → RowIs IsTerminal i (handle i seconds env e s).1
unfolding handle
handle-IsTerminal i seconds env cancelled s f h =
    guards_lands i job_cancelled env.on_fail s f.fail f.recorded h
handle-IsTerminal i seconds env timeout_error s f h =
    elim (Option-cases (passed seconds env.expired)) [
      | inl p ↦
          rw (p, handle)
            (fails_lands i (internal_error "TimeoutError") env.on_fail s f.fail f.recorded h)
      | inr (n, p) ↦ rw (p, handle) (guards_lands i (timed_out n) env.on_fail s f.fail f.recorded h)
    ]
handle-IsTerminal i seconds env (bridge e) s f h =
    fails_lands i e.message env.on_fail s f.fail f.recorded h
handle-IsTerminal i seconds env (other n) s f h =
    fails_lands i (internal_error n) env.on_fail s f.fail f.recorded h
