-- ===== src/Runner.antt =====
-- api/_videos_runner.py: `run_video_job`, from queued to completed or failed. Each await of a write
-- gives what other tasks did to the table before the write, whether the write reached the table,
-- and what the await raised: a cancellation may come with the write in flight, so a write that
-- raises may still have landed. What the backend and the file store do is the environment's choice.
pub mod Finish
pub mod Outcomes
pub mod Race
mod Tests
use openai_api_bridge.Prelude.{
  ℕ, String, Bool, true, false, Option, none, some, List, [], ◌∷◌, not, if◌then◌else◌,
}
use openai_api_bridge.Errors.{
  Piece, lit, text, num, Message, BridgeError, Exc, bridge, cancelled, timeout_error, other,
  is_exception, Outcome, returned, raised,
}
use openai_api_bridge.JobStore.{
  JobStatus, in_progress, completed, failed, JobStore, Patch, no_change, update, fail_if_active,
}

abbrev pub Action : Type 0 → Type 0
Action A = JobStore → Outcome A × JobStore

abbrev pub continue : {A B : Type 0} → Outcome A → (A → Action B) → Action B
continue (returned a) f s = f a s
continue (raised e) f s = (raised e, s)

infixl 5 ◌>>=◌ ◌>>◌
abbrev pub ◌>>=◌ : {A B : Type 0} → Action A → (A → Action B) → Action B
◌>>=◌ m f s = let (o, s') = m s in continue o f s'

abbrev pub ◌>>◌ : {B : Type 0} → Action (Unit {0}) → Action B → Action B
m >> n = m >>= λ _. n

abbrev pub pure : {A : Type 0} → Outcome A → Action A
pure o s = (o, s)

pub record Await : Type 0 where
  pub others : JobStore → JobStore
  pub lands : Bool
  pub raises : Option Exc
  pub now : ℕ

abbrev pub finished : Option Exc → Outcome (Unit {0})
finished none = returned tt
finished (some e) = raised e

-- `await jobstore.update(job_id, …)`
unfoldable pub write : String → Patch → Await → Action (Unit {0})
write job_id p a s =
    (finished a.raises, if a.lands then update (a.others s) a.now job_id p else a.others s)

-- `await jobstore.fail_if_active(job_id, message)`
unfoldable pub write_if_active : String → Message → Await → Action (Unit {0})
write_if_active job_id m a s = (
  finished a.raises,
  if a.lands then (fail_if_active (a.others s) a.now job_id m).0 else a.others s,
)

-- What one run meets, in the order in which it meets it. `provider` is the dispatcher's error.
-- `upstream` is the call of `on_upstream_id`, if the backend makes it. `generated` is the asset's
-- aspect ratio, or what `generate_video` raised, and `stored` the file's id, or what `put` raised.
pub record Env : Type 0 where
  pub on_start : Await
  pub provider : Option BridgeError
  pub upstream : Option (String × Await)
  pub generated : Outcome (Option String)
  pub stored : Outcome String
  pub on_complete : Await
  pub expired : Bool
  pub on_fail : Await

abbrev suppress : Outcome (Unit {0}) → Outcome (Unit {0})
suppress (returned u) = returned u
suppress (raised e) = if is_exception e then returned tt else raised e

-- `_persist_upstream_id`: an `Exception` of the write is logged and dropped
unfoldable pub persist_upstream_id : String → Option (String × Await) → Action (Unit {0})
unfolding write is_exception
persist_upstream_id job_id none s = (returned tt, s)
persist_upstream_id job_id (some (upstream_id, a)) s =
    let (o, s') = write job_id (record no_change { upstream_id = some upstream_id }) a s in
    (suppress o, s')

abbrev pub for_provider : Option BridgeError → Outcome (Unit {0})
for_provider none = returned tt
for_provider (some e) = raised (bridge e)

abbrev pub completion : String → Option String → Patch
completion file_id aspect_ratio = record no_change {
  status = some completed;
  file_id = some file_id;
  progress_pct = some 100;
  aspect_ratio = some aspect_ratio;
}

-- `_render`
unfoldable pub render : String → Env → Action (Unit {0})
unfolding write persist_upstream_id
render job_id env = do
  write job_id (record no_change { status = some in_progress }) env.on_start
  pure (for_provider env.provider)
  persist_upstream_id job_id env.upstream
  aspect_ratio ← pure env.generated
  file_id ← pure env.stored
  write job_id (completion file_id aspect_ratio) env.on_complete

abbrev pub failure : Message → Patch
failure m = record no_change { status = some failed; error_message = some m }

-- the limit that has expired: where there is none, the deadline does not expire
abbrev pub passed : Option ℕ → Bool → Option ℕ
passed none expired = none
passed (some seconds) expired = if expired then some seconds else none

-- the seconds of a limit are the number that `:.0f` shows
abbrev pub timed_out : ℕ → Message
timed_out seconds =
    lit "Video job timed out after " ∷ num seconds ∷ lit "s (VIDEO_JOB_TIMEOUT_SECONDS)" ∷ []

abbrev pub internal_error : String → Message
internal_error name = lit "Internal error: " ∷ text name ∷ []

abbrev pub job_cancelled : Message
job_cancelled = lit "Job cancelled" ∷ []

-- the `except` clauses
unfoldable pub handle : String → Option ℕ → Env → Exc → Action (Unit {0})
unfolding write write_if_active
handle job_id timeout_seconds env cancelled s =
    (raised cancelled, (write_if_active job_id job_cancelled env.on_fail s).1)
handle job_id timeout_seconds env timeout_error s = elim (passed timeout_seconds env.expired) [
  | some seconds ↦ write_if_active job_id (timed_out seconds) env.on_fail s
  | none ↦ write job_id (failure (internal_error "TimeoutError")) env.on_fail s
]
handle job_id timeout_seconds env (bridge e) s = write job_id (failure e.message) env.on_fail s
handle job_id timeout_seconds env (other name) s =
    write job_id (failure (internal_error name)) env.on_fail s

abbrev pub catch : Outcome (Unit {0}) → (Exc → Action (Unit {0})) → Action (Unit {0})
catch (returned u) h s = (returned u, s)
catch (raised e) h s = h e s

unfoldable pub run_video_job : String → Option ℕ → Env → Action (Unit {0})
unfolding render handle
run_video_job job_id timeout_seconds env s =
    let (o, s') = render job_id env s in catch o (handle job_id timeout_seconds env) s'
