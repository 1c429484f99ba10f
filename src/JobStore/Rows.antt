-- ===== src/JobStore/Rows.antt =====
-- What a read finds after a write of the `video_jobs` table.
use openai_api_bridge.Prelude.{
  ℕ, String, ◌≡◌, ◌≢◌, refl, Bool, Option, none, some, [], ◌∷◌, not, arith, if◌then◌else◌, str_eq,
  eq_iff, Bool-cases, inl, inr,
}
use text.Mathlib.TextPositions.{eq_refl}
use openai_api_bridge.Errors.{Message, returned, raised, other}
use openai_api_bridge.JobStore.{
  VideoJob, queued, create, JobStore, Patch, get, create, update, patched, as_failed, fail_where,
  is_prunable, prune_terminal,
}

-- `id` is the primary key: no two rows share it
abbrev pub IsKeyed : JobStore → Type 0
IsKeyed [] = Unit
IsKeyed (j ∷ js) = (get js j.id ≡ none) × IsKeyed js

abbrev pub when : {A : Type 0} → (A → Bool) → (A → A) → Option A → Option A
when test f none = none
when test f (some a) = some (if test a then f a else a)

abbrev pub keep_if : {A : Type 0} → (A → Bool) → Option A → Option A
keep_if test none = none
keep_if test (some a) = if test a then some a else none

pub get-id : (s : JobStore) (i : String) (j : VideoJob) → get s i ≡ some j → j.id ≡ i
unfolding get
get-id [] i j h = cc
get-id (k ∷ ks) i j h = ground (arith, eq_iff k.id i, get-id ks i j)

pub get-update :
    (s : JobStore) (now : ℕ) (i k : String) (p : Patch)
    → get (update s now i p) k ≡ when (λ j. str_eq i k) (patched now p) (get s k)
unfolding get update
get-update [] now i k p = refl
get-update (j ∷ js) now i k p =
    ground (arith, eq_iff j.id i, eq_iff j.id k, eq_iff i k, get-update js now i k p)

pub get-fail_where :
    (test : VideoJob → Bool) (s : JobStore) (now : ℕ) (m : Message) (k : String)
    → get (fail_where test s now m).0 k ≡ when test (as_failed now m) (get s k)
unfolding get fail_where
get-fail_where test [] now m k = refl
get-fail_where test (j ∷ js) now m k = ground (arith, eq_iff j.id k, get-fail_where test js now m k)

-- A read of a row after the prune finds it exactly if it was there and is not prunable.
pub get-prune_terminal :
    (s : JobStore) (older_than : ℕ) (k : String)
    → IsKeyed s
    → get (prune_terminal s older_than).0 k
      ≡ keep_if (λ j. not (is_prunable older_than j)) (get s k)
unfolding get prune_terminal
get-prune_terminal [] older_than k h = refl
get-prune_terminal (j ∷ js) older_than k h = elim (Bool-cases (is_prunable older_than j)) [
  | inl p ↦ rw p (ground (arith, get-prune_terminal js older_than k h.1, eq_iff j.id k, h.0, p))
  | inr p ↦ rw p (ground (arith, get-prune_terminal js older_than k h.1, eq_iff j.id k, p))
]

pub IsKeyed-update :
    (s : JobStore) (now : ℕ) (i : String) (p : Patch) → IsKeyed s → IsKeyed (update s now i p)
unfolding update get
IsKeyed-update [] now i p h = tt
IsKeyed-update (j ∷ js) now i p h = elim (Bool-cases (str_eq j.id i)) [
  | inl e ↦ rw e (rw (get-update js now i j.id p) (rw h.0), IsKeyed-update js now i p h.1)
  | inr e ↦ rw e (rw (get-update js now i j.id p) (rw h.0), IsKeyed-update js now i p h.1)
]

pub IsKeyed-fail_where :
    (test : VideoJob → Bool) (s : JobStore) (now : ℕ) (m : Message)
    → IsKeyed s
    → IsKeyed (fail_where test s now m).0
unfolding fail_where get
IsKeyed-fail_where test [] now m h = tt
IsKeyed-fail_where test (j ∷ js) now m h = elim (Bool-cases (test j)) [
  | inl e ↦
      rw e (rw (get-fail_where test js now m j.id) (rw h.0), IsKeyed-fail_where test js now m h.1)
  | inr e ↦
      rw e (rw (get-fail_where test js now m j.id) (rw h.0), IsKeyed-fail_where test js now m h.1)
]

pub IsKeyed-prune_terminal :
    (s : JobStore) (older_than : ℕ) → IsKeyed s → IsKeyed (prune_terminal s older_than).0
unfolding prune_terminal get
IsKeyed-prune_terminal [] older_than h = tt
IsKeyed-prune_terminal (j ∷ js) older_than h = elim (Bool-cases (is_prunable older_than j)) [
  | inl e ↦ rw e (IsKeyed-prune_terminal js older_than h.1)
  | inr e ↦ rw e (
    rw (get-prune_terminal js older_than j.id h.1) (rw h.0),
    IsKeyed-prune_terminal js older_than h.1,
  )
]

-- `create` of a new id puts one queued job in the table, which `get` then finds, and leaves every
-- other row. Of an id that is there it raises and changes nothing.
pub create_exact :
    (s : JobStore) (now : ℕ) (i model prompt : String) (size aspect : Option String)
    (seconds : Option ℕ)
    → IsKeyed s
    → (get s i ≡ none
        → (job : VideoJob) × (create s now i model prompt size aspect seconds
            ≡ (returned job, job ∷ s))
          × (get (job ∷ s) i ≡ some job)
          × (job.status ≡ queued)
          × IsKeyed (job ∷ s)
          × ((k : String) → k ≢ i → get (job ∷ s) k ≡ get s k))
      × ((j : VideoJob)
          → get s i ≡ some j
          → create s now i model prompt size aspect seconds ≡ (raised (other "IntegrityError"), s))
unfolding create get
create_exact s now i model prompt size aspect seconds h =
    let job : VideoJob = record {
      id = i;
      status = queued;
      model = model;
      prompt = prompt;
      size = size;
      aspect_ratio = aspect;
      seconds = seconds;
      input_reference_file_id = none;
      file_id = none;
      upstream_id = none;
      error_message = none;
      created_at = now;
      updated_at = now;
      progress_pct = none;
    } in
    (
      λ fresh. (
        job,
        rw (fresh, create),
        rw (eq_refl i),
        refl,
        (fresh, h),
        λ k ne. ground (arith, eq_iff i k, ne),
      ),
      λ j old. rw (old, create),
    )
