-- ===== src/JobStore/Terminal.antt =====
-- The guarded writes: a terminal job keeps its state, an active one is failed, and pruning removes
-- terminal rows alone.
use openai_api_bridge.Prelude.{
  ℕ, suc, ◌+◌, String, ◌≡◌, refl, Bool, false, Option, none, some, [], ◌∷◌, ◌&&◌, ◌||◌, ltb, leb,
  arith, if◌then◌else◌, str_eq, eq_iff, Option-cases, inl, inr, length,
}
use openai_api_bridge.Errors.{Message}
use openai_api_bridge.JobStore.{
  VideoJob, JobStore, get, is_active, as_failed, fail_where, fail_if_active, mark_stale_failed,
  is_prunable, prune_terminal,
}
use openai_api_bridge.JobStore.Rows.{
  IsKeyed, get-id, when, keep_if, get-fail_where, get-prune_terminal, IsKeyed-prune_terminal,
}

abbrev pub active_at : Option VideoJob → Bool
active_at none = false
active_at (some j) = is_active j.status

-- the specification of a guarded failure: of the row `i`, and only while it is active
abbrev pub fails_at : String → String → ℕ → Message → Option VideoJob → Option VideoJob
fails_at i k now m = when (λ j. str_eq i k && is_active j.status) (as_failed now m)

pub count_where : (VideoJob → Bool) → JobStore → ℕ
count_where test [] = 0
count_where test (j ∷ js) = if test j then suc (count_where test js) else count_where test js

fail_where-count :
    (test : VideoJob → Bool) (s : JobStore) (now : ℕ) (m : Message)
    → (fail_where test s now m).1 ≡ count_where test s
unfolding fail_where count_where
fail_where-count test [] now m = refl
fail_where-count test (j ∷ js) now m = ground (arith, fail_where-count test js now m)

no_other_row :
    (i : String) (s : JobStore)
    → get s i ≡ none
    → count_where (λ j. str_eq j.id i && is_active j.status) s ≡ 0
unfolding get count_where
no_other_row i [] h = refl
no_other_row i (j ∷ js) h = ground (arith, no_other_row i js)

rowcount_pos :
    (i : String) (s : JobStore)
    → IsKeyed s
    → ltb 0 (count_where (λ j. str_eq j.id i && is_active j.status) s) ≡ active_at (get s i)
unfolding get count_where
rowcount_pos i [] h = refl
rowcount_pos i (j ∷ js) h =
    ground (arith, rowcount_pos i js h.1, no_other_row i js, eq_iff j.id i, h.0)

-- `fail_if_active` writes a job's row exactly while it is queued or in progress, and says so: a
-- terminal row, a missing one and every other row keep their content. A row that it writes becomes
-- failed with the message.
pub fail_if_active_exact :
    (s : JobStore) (now : ℕ) (i : String) (m : Message)
    → IsKeyed s
    → ((fail_if_active s now i m).1 ≡ active_at (get s i))
      × ((k : String) → get (fail_if_active s now i m).0 k ≡ fails_at i k now m (get s k))
unfolding fail_if_active
fail_if_active_exact s now i m h = (
  rw (fail_where-count (λ j. str_eq j.id i && is_active j.status) s now m) (rowcount_pos i s h),
  λ k.
      rw (get-fail_where (λ j. str_eq j.id i && is_active j.status) s now m k)
        (elim (Option-cases (get s k)) [
          | inl p ↦ rw p
          | inr (j, p) ↦ rw p (ground (arith, eq_iff j.id i, eq_iff i k, get-id s k j p))
        ]),
)

none_active :
    (s : JobStore) (now : ℕ) (m : Message)
    → count_where (λ j. is_active j.status) (fail_where (λ j. is_active j.status) s now m).0 ≡ 0
unfolding fail_where count_where is_active as_failed
none_active [] now m = refl
none_active (j ∷ js) now m = ground (arith, none_active js now m)

-- At startup every queued or in-progress job is failed with the message and counted, terminal jobs
-- keep their rows, and no active job is left.
pub mark_stale_failed_exact :
    (s : JobStore) (now : ℕ) (m : Message)
    → ((mark_stale_failed s now m).1 ≡ count_where (λ j. is_active j.status) s)
      × (count_where (λ j. is_active j.status) (mark_stale_failed s now m).0 ≡ 0)
      × ((k : String)
          → get (mark_stale_failed s now m).0 k
            ≡ when (λ j. is_active j.status) (as_failed now m) (get s k))
unfolding mark_stale_failed
mark_stale_failed_exact s now m = (
  fail_where-count (λ j. is_active j.status) s now m,
  none_active s now m,
  λ k. get-fail_where (λ j. is_active j.status) s now m k,
)

prune_terminal-count :
    (s : JobStore) (older_than : ℕ)
    → length (prune_terminal s older_than).0 + (prune_terminal s older_than).1 ≡ length s
unfolding prune_terminal
prune_terminal-count [] older_than = omega arith
prune_terminal-count (j ∷ js) older_than = ground (arith, prune_terminal-count js older_than)

-- Pruning keeps every row that is active or was updated at `older_than` or later, removes every
-- other row, reports how many it removed, and leaves the ids unique.
pub prune_terminal_exact :
    (s : JobStore) (older_than : ℕ)
    → IsKeyed s
    → IsKeyed (prune_terminal s older_than).0
      × (length (prune_terminal s older_than).0 + (prune_terminal s older_than).1 ≡ length s)
      × ((k : String)
          → get (prune_terminal s older_than).0 k
            ≡ keep_if (λ j. is_active j.status || leb older_than j.updated_at) (get s k))
prune_terminal_exact s older_than h = (
  IsKeyed-prune_terminal s older_than h,
  prune_terminal-count s older_than,
  λ k. rw (get-prune_terminal s older_than k h) (elim (Option-cases (get s k)) [
    | inl p ↦ rw p
    | inr (j, p) ↦ rw p (unfold is_prunable in ground arith)
  ]),
)
