-- ===== src/JobStore.antt =====
-- infra/jobstore.py: the `video_jobs` table and its statements. Each method is one transaction of
-- the shared connection, so it acts on the whole table at once; `now` is `int(time.time())`.
pub mod Rows
pub mod Terminal
mod Tests
use openai_api_bridge.Prelude.{
  ℕ, suc, String, Bool, true, false, Option, none, some, List, [], ◌∷◌, ◌&&◌, not, ltb,
  if◌then◌else◌, str_eq,
}
use openai_api_bridge.Errors.{Message, Outcome, returned, raised, other}

pub data JobStatus : Type 0 where
  queued in_progress completed failed : JobStatus

-- `seconds` counts thousandths of a second
pub record VideoJob : Type 0 where
  pub id : String
  pub status : JobStatus
  pub model : String
  pub prompt : String
  pub size : Option String
  pub aspect_ratio : Option String
  pub seconds : Option ℕ
  pub input_reference_file_id : Option String
  pub file_id : Option String
  pub upstream_id : Option String
  pub error_message : Option Message
  pub created_at : ℕ
  pub updated_at : ℕ
  pub progress_pct : Option ℕ

abbrev pub JobStore : Type 0
JobStore = List VideoJob

-- `SELECT * FROM video_jobs WHERE id = ?`
unfoldable pub get : JobStore → String → Option VideoJob
get [] job_id = none
get (j ∷ js) job_id = if str_eq j.id job_id then some j else get js job_id

-- The id is the primary key, so an `INSERT` of one that is there raises.
unfoldable pub create :
    JobStore
    → ℕ
    → String
    → String
    → String
    → Option String
    → Option String
    → Option ℕ
    → Outcome VideoJob × JobStore
unfolding get
create s now job_id model prompt size aspect_ratio seconds =
    let job : VideoJob = record {
      id = job_id;
      status = queued;
      model = model;
      prompt = prompt;
      size = size;
      aspect_ratio = aspect_ratio;
      seconds = seconds;
      input_reference_file_id = none;
      file_id = none;
      upstream_id = none;
      error_message = none;
      created_at = now;
      updated_at = now;
      progress_pct = none;
    } in
    elim (get s job_id) [
      | none ↦ (returned job, job ∷ s)
      | some _ ↦ (raised (other "IntegrityError"), s)
    ]

-- The keyword arguments of `update`. For `aspect_ratio` the outer `none` is `_UNSET` and
-- `some none` writes NULL.
pub record Patch : Type 0 where
  pub status : Option JobStatus
  pub upstream_id : Option String
  pub file_id : Option String
  pub error_message : Option Message
  pub progress_pct : Option ℕ
  pub aspect_ratio : Option (Option String)

abbrev pub no_change : Patch
no_change = record {
  status = none;
  upstream_id = none;
  file_id = none;
  error_message = none;
  progress_pct = none;
  aspect_ratio = none;
}

abbrev keep_or : {A : Type 0} → Option A → A → A
keep_or none old = old
keep_or (some new) old = new

abbrev keep_or_some : {A : Type 0} → Option A → Option A → Option A
keep_or_some none old = old
keep_or_some (some new) old = some new

unfoldable pub patched : ℕ → Patch → VideoJob → VideoJob
patched now p j = record j {
  status = keep_or p.status j.status;
  upstream_id = keep_or_some p.upstream_id j.upstream_id;
  file_id = keep_or_some p.file_id j.file_id;
  error_message = keep_or_some p.error_message j.error_message;
  progress_pct = keep_or_some p.progress_pct j.progress_pct;
  aspect_ratio = keep_or p.aspect_ratio j.aspect_ratio;
  updated_at = now;
}

-- `UPDATE video_jobs SET … WHERE id = ?`
unfoldable pub update : JobStore → ℕ → String → Patch → JobStore
unfolding patched
update [] now job_id p = []
update (j ∷ js) now job_id p =
    (if str_eq j.id job_id then patched now p j else j) ∷ update js now job_id p

-- `status IN ('queued', 'in_progress')`
unfoldable pub is_active : JobStatus → Bool
is_active queued = true
is_active in_progress = true
is_active completed = false
is_active failed = false

unfoldable pub as_failed : ℕ → Message → VideoJob → VideoJob
as_failed now message j = record j {
  status = failed;
  error_message = some message;
  updated_at = now;
}

-- the table after the guarded `UPDATE`, and its `rowcount`
unfoldable pub fail_where : (VideoJob → Bool) → JobStore → ℕ → Message → JobStore × ℕ
unfolding as_failed
fail_where test [] now message = ([], 0)
fail_where test (j ∷ js) now message =
    let (js', n) = fail_where test js now message in
    if test j then (as_failed now message j ∷ js', suc n) else (j ∷ js', n)

unfoldable pub fail_if_active : JobStore → ℕ → String → Message → JobStore × Bool
unfolding fail_where is_active
fail_if_active s now job_id message =
    let (s', rowcount) = fail_where (λ j. str_eq j.id job_id && is_active j.status) s now message in
    (s', ltb 0 rowcount)

unfoldable pub mark_stale_failed : JobStore → ℕ → Message → JobStore × ℕ
unfolding fail_where is_active
mark_stale_failed s now message = fail_where (λ j. is_active j.status) s now message

unfoldable pub is_prunable : ℕ → VideoJob → Bool
unfolding is_active
is_prunable older_than j = not (is_active j.status) && ltb j.updated_at older_than

unfoldable pub prune_terminal : JobStore → ℕ → JobStore × ℕ
unfolding is_prunable
prune_terminal [] older_than = ([], 0)
prune_terminal (j ∷ js) older_than =
    let (js', n) = prune_terminal js older_than in
    if is_prunable older_than j then (js', suc n) else (j ∷ js', n)
