-- ===== src/JobStore/Tests.antt =====
-- Runs of the job store, and the theorems at them.
use openai_api_bridge.Prelude.{
  ◌+◌, String, ◌≡◌, refl, false, none, some, [], ◌∷◌, ◌||◌, leb, length,
}
use openai_api_bridge.Errors.{Message, lit}
use openai_api_bridge.JobStore.{
  queued, completed, VideoJob, JobStore, no_change, get, create, update, is_active, fail_if_active,
  mark_stale_failed, prune_terminal,
}
use openai_api_bridge.JobStore.Rows.{IsKeyed, keep_if}
use openai_api_bridge.JobStore.Terminal.{
  active_at, fails_at, fail_if_active_exact, prune_terminal_exact,
}

program : Unit {0}
unfolding get create update is_active fail_if_active mark_stale_failed prune_terminal
program = tt

abbrev queued_job : VideoJob
queued_job = record {
  id = "a";
  status = queued;
  model = "fal/veo3";
  prompt = "a cat";
  size = none;
  aspect_ratio = some "16:9";
  seconds = some 5000;
  input_reference_file_id = none;
  file_id = none;
  upstream_id = none;
  error_message = none;
  created_at = 100;
  updated_at = 100;
  progress_pct = none;
}

abbrev done_job : VideoJob
done_job = record queued_job {
  id = "b";
  status = completed;
  file_id = some "f";
  progress_pct = some 100;
}

abbrev table : JobStore
table = queued_job ∷ done_job ∷ []

abbrev cancelled_message : Message
cancelled_message = lit "Cancelled by user" ∷ []

table-IsKeyed : IsKeyed table
unfolding program
table-IsKeyed = (refl, (refl, tt))

-- the sentinel: an update that passes NULL clears the ratio, one that passes nothing keeps it
update_ratio :
    (get (update table 200 "a" (record no_change { aspect_ratio = some none })) "a"
      ≡ some (record queued_job { aspect_ratio = none; updated_at = 200 }))
    × (get (update table 200 "a" no_change) "a" ≡ some (record queued_job { updated_at = 200 }))
unfolding program
update_ratio = (refl, refl)

fail_if_active_exact_example :
    ((fail_if_active table 200 "b" cancelled_message).1 ≡ active_at (get table "b"))
    × ((k : String)
        → get (fail_if_active table 200 "b" cancelled_message).0 k
          ≡ fails_at "b" k 200 cancelled_message (get table k))
fail_if_active_exact_example = fail_if_active_exact table 200 "b" cancelled_message table-IsKeyed

completed_stays : fail_if_active table 200 "b" cancelled_message ≡ (table, false)
unfolding program
completed_stays = refl

prune_terminal_exact_example :
    IsKeyed (prune_terminal table 101).0
    × (length (prune_terminal table 101).0 + (prune_terminal table 101).1 ≡ length table)
    × ((k : String)
        → get (prune_terminal table 101).0 k
          ≡ keep_if (λ j. is_active j.status || leb 101 j.updated_at) (get table k))
prune_terminal_exact_example = prune_terminal_exact table 101 table-IsKeyed
