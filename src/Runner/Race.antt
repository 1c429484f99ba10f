-- ===== src/Runner/Race.antt =====
-- Cancellations and deadlines that race the runner's writes, and the reason that a failed row gives.
use text.Mathlib.TextPositions.{eq_refl}
use openai_api_bridge.Prelude.{
  ℕ, String, ◌≡◌, ◌∙◌, inl, inr, true, false, Option, none, some, ◌&&◌, if◌then◌else◌, str_eq,
  Bool-cases, Option-cases,
}
use openai_api_bridge.Errors.{Message, Exc, bridge, cancelled, timeout_error, other, raised}
use openai_api_bridge.JobStore.{
  VideoJob, JobStore, get, patched, is_active, as_failed, fail_if_active,
}
use openai_api_bridge.JobStore.Rows.{get-fail_where, get-id}
use openai_api_bridge.Runner.{
  Await, write, write_if_active, Env, render, failure, passed, timed_out, internal_error,
  job_cancelled, handle, run_video_job,
}
use openai_api_bridge.Runner.Finish.{update_self}

-- the exceptions that arrive from outside the render: a cancellation, or its own deadline
abbrev pub IsInterruption : Option ℕ → Env → Exc → Type 0
IsInterruption seconds env cancelled = Unit
IsInterruption seconds env timeout_error = (n : ℕ) × (passed seconds env.expired ≡ some n)
IsInterruption seconds env _ = ⊥

guarded_self :
    (i : String) (now : ℕ) (m : Message) (s : JobStore) (j : VideoJob)
    → get s i ≡ some j
    → get (fail_if_active s now i m).0 i
      ≡ some (if is_active j.status then as_failed now m j else j)
unfolding fail_if_active
guarded_self i now m s j e =
    let k : j.id ≡ i = get-id s i j e in
    rw (get-fail_where (λ j. str_eq j.id i && is_active j.status) s now m i)
      (rw e (rw k (rw (eq_refl i))))

guard_keeps :
    (i : String) (m : Message) (a : Await) (s : JobStore) (j : VideoJob)
    → get (a.others s) i ≡ some j
    → is_active j.status ≡ false
    → get (write_if_active i m a s).1 i ≡ some j
unfolding write_if_active
guard_keeps i m a s j e t = elim (Bool-cases a.lands) [
  | inl l ↦ rw l (guarded_self i a.now m (a.others s) j e ∙ rw t)
  | inr l ↦ rw l e
]

handle_keeps :
    (i : String) (seconds : Option ℕ) (env : Env) (e : Exc) (s : JobStore) (j : VideoJob)
    → IsInterruption seconds env e
    → get (env.on_fail.others s) i ≡ some j
    → is_active j.status ≡ false
    → get (handle i seconds env e s).1 i ≡ some j
unfolding handle
handle_keeps i seconds env cancelled s j h e t = guard_keeps i job_cancelled env.on_fail s j e t
handle_keeps i seconds env timeout_error s j h e t =
    rw (h.1, handle) (guard_keeps i (timed_out (h.0)) env.on_fail s j e t)
handle_keeps i seconds env (bridge x) s j h e t = absurd h
handle_keeps i seconds env (other n) s j h e t = absurd h

-- A cancellation or a deadline that arrives when the row is already terminal, after a completing
-- write that landed or after a `DELETE` that recorded its reason, leaves that row as it is.
pub interruption_keeps_terminal :
    (i : String) (seconds : Option ℕ) (env : Env) (e : Exc) (s : JobStore) (j : VideoJob)
    → (render i env s).0 ≡ raised e
    → IsInterruption seconds env e
    → get (env.on_fail.others (render i env s).1) i ≡ some j
    → is_active j.status ≡ false
    → get (run_video_job i seconds env s).1 i ≡ some j
unfolding run_video_job
interruption_keeps_terminal i seconds env e s j r h g t =
    rw r (handle_keeps i seconds env e (render i env s).1 j h g t)

abbrev pub passed_reason : Option ℕ → Message
passed_reason (some n) = timed_out n
passed_reason none = internal_error "TimeoutError"

-- what a client is told
abbrev pub reason : Option ℕ → Env → Exc → Message
reason seconds env (bridge e) = e.message
reason seconds env cancelled = job_cancelled
reason seconds env timeout_error = passed_reason (passed seconds env.expired)
reason seconds env (other name) = internal_error name

guard_fails :
    (i : String) (m : Message) (a : Await) (s : JobStore) (j : VideoJob)
    → get (a.others s) i ≡ some j
    → is_active j.status ≡ true
    → a.lands ≡ true
    → get (write_if_active i m a s).1 i ≡ some (as_failed a.now m j)
unfolding write_if_active
guard_fails i m a s j g t l = rw l (guarded_self i a.now m (a.others s) j g ∙ rw t)

write_fails :
    (i : String) (m : Message) (a : Await) (s : JobStore) (j : VideoJob)
    → get (a.others s) i ≡ some j
    → a.lands ≡ true
    → get (write i (failure m) a s).1 i ≡ some (as_failed a.now m j)
unfolding write as_failed patched
write_fails i m a s j g l = rw l (update_self i a.now (failure m) (a.others s) j g)

handle-reason :
    (i : String) (seconds : Option ℕ) (env : Env) (e : Exc) (s : JobStore) (j : VideoJob)
    → get (env.on_fail.others s) i ≡ some j
    → is_active j.status ≡ true
    → env.on_fail.lands ≡ true
    → get (handle i seconds env e s).1 i ≡ some (as_failed env.on_fail.now (reason seconds env e) j)
unfolding handle
handle-reason i seconds env cancelled s j g t l = guard_fails i job_cancelled env.on_fail s j g t l
handle-reason i seconds env timeout_error s j g t l =
    elim (Option-cases (passed seconds env.expired)) [
      | inl p ↦ rw (p, handle) (write_fails i (internal_error "TimeoutError") env.on_fail s j g l)
      | inr (n, p) ↦ rw (p, handle) (guard_fails i (timed_out n) env.on_fail s j g t l)
    ]
handle-reason i seconds env (bridge x) s j g t l = write_fails i x.message env.on_fail s j g l
handle-reason i seconds env (other n) s j g t l =
    write_fails i (internal_error n) env.on_fail s j g l

-- A job that is still active when its runner fails becomes failed, with a reason that tells apart a
-- cancellation, the deadline, a bridge error, by its message, and any other exception, by the name
-- of its type alone. Nothing else of the row changes but its time of update.
pub failed_with_reason :
    (i : String) (seconds : Option ℕ) (env : Env) (e : Exc) (s : JobStore) (j : VideoJob)
    → (render i env s).0 ≡ raised e
    → get (env.on_fail.others (render i env s).1) i ≡ some j
    → is_active j.status ≡ true
    → env.on_fail.lands ≡ true
    → get (run_video_job i seconds env s).1 i
      ≡ some (as_failed env.on_fail.now (reason seconds env e) j)
unfolding run_video_job
failed_with_reason i seconds env e s j r g t l =
    rw r (handle-reason i seconds env e (render i env s).1 j g t l)
