-- ===== src/Runner/Tests.antt =====
-- Runs of a video job, and the theorems at them.
use openai_api_bridge.Prelude.{ℕ, ◌≡◌, refl, ◌⊎◌, true, false, none, some, [], ◌∷◌}
use openai_api_bridge.Errors.{Exc, timeout_error, returned, raised}
use openai_api_bridge.JobStore.{
  queued, in_progress, completed, VideoJob, get, update, is_active, as_failed, fail_if_active,
}
use openai_api_bridge.Runner.{Await, Env, render, run_video_job, timed_out}
use openai_api_bridge.Runner.Finish.{RowIs, IsFair, IsTerminal}
use openai_api_bridge.Runner.Outcomes.{IsRendered, run_settles}
use openai_api_bridge.Runner.Race.{interruption_keeps_terminal, failed_with_reason}

program : Unit {0}
unfolding get update is_active fail_if_active run_video_job
program = tt

abbrev job : VideoJob
job = record {
  id = "a";
  status = queued;
  model = "fal/veo3";
  prompt = "a cat";
  size = none;
  aspect_ratio = some "16:9";
  seconds = some 5000;
  input_reference_file_id = none;
  file_id = none;
  upstream_id = none;
  error_message = none;
  created_at = 100;
  updated_at = 100;
  progress_pct = none;
}

abbrev quiet : ℕ → Await
quiet t = record { others = λ s. s; lands = true; raises = none; now = t }

abbrev smooth : Env
smooth = record {
  on_start = quiet 101;
  provider = none;
  upstream = some ("up-1", quiet 102);
  generated = returned none;
  stored = returned "file-1";
  on_complete = quiet 200;
  expired = false;
  on_fail = quiet 201;
}

-- the backend reports no ratio, so the row stops claiming the requested one
completes :
    get (run_video_job "a" (some 600) smooth (job ∷ [])).1 "a"
    ≡ some (record job {
      status = completed;
      aspect_ratio = none;
      file_id = some "file-1";
      upstream_id = some "up-1";
      updated_at = 200;
      progress_pct = some 100;
    })
unfolding program
completes = refl

smooth-IsFair : IsFair "a" smooth
smooth-IsFair = record {
  start = record { keeps = λ s h. h };
  upstream = record { keeps = λ s h. h };
  complete = record { keeps = λ s h. h };
  fail = record { keeps = λ s h. h };
  durable = λ _. refl;
  recorded = refl;
}

run_settles_example :
    (((render "a" smooth (job ∷ [])).0 ≡ returned tt)
      × RowIs (IsRendered smooth) "a" (run_video_job "a" (some 600) smooth (job ∷ [])).1)
    ⊎ ((e : Exc) × ((render "a" smooth (job ∷ [])).0 ≡ raised e)
        × RowIs IsTerminal "a" (run_video_job "a" (some 600) smooth (job ∷ [])).1)
unfolding program
run_settles_example = run_settles "a" (some 600) smooth (job ∷ []) smooth-IsFair (job, refl, tt)

-- the deadline fires while the completing write is in flight, and the write lands
abbrev late : Env
late = record smooth {
  on_complete = record (quiet 200) { raises = some timeout_error };
  expired = true;
}

abbrev rendered : VideoJob
rendered = record job {
  status = completed;
  aspect_ratio = none;
  file_id = some "file-1";
  upstream_id = some "up-1";
  updated_at = 200;
  progress_pct = some 100;
}

interruption_keeps_terminal_example :
    get (run_video_job "a" (some 600) late (job ∷ [])).1 "a" ≡ some rendered
unfolding program
interruption_keeps_terminal_example =
    interruption_keeps_terminal "a" (some 600) late timeout_error (job ∷ []) rendered refl
      (600, refl) refl refl

-- the deadline fires during the render
abbrev slow : Env
slow = record smooth { generated = raised timeout_error; expired = true }

abbrev started : VideoJob
started = record job { status = in_progress; upstream_id = some "up-1"; updated_at = 102 }

failed_with_reason_example :
    get (run_video_job "a" (some 600) slow (job ∷ [])).1 "a"
    ≡ some (as_failed 201 (timed_out 600) started)
unfolding program
failed_with_reason_example =
    failed_with_reason "a" (some 600) slow timeout_error (job ∷ []) started refl refl refl refl
