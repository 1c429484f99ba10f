-- ===== src/Tasks/Tests.antt =====
-- Runs of the scheduler and of the single flight, and the theorems at them.
use openai_api_bridge.Prelude.{
  ℕ, ◌+◌, ◌≤◌, ◌≡◌, refl, none, some, [], arith, false, lookup, insert, remove,
}
use openai_api_bridge.Tasks.{
  Task, queued, TaskScheduler, scheduler_full, init, find, replace, discard, submit, start, finish,
  cleanup, cancel, in_flight, reserve,
}
use openai_api_bridge.Tasks.Steps.{
  started, submitted, background, Reach, here, next, count_running, running-le-max,
}
use openai_api_bridge.Tasks.Admission.{Run, admitted, handed_over, hand_over, in_flight-le-capacity}
use openai_api_bridge.Tasks.SingleFlight
use openai_api_bridge.Tasks.SingleFlight.{
  SingleFlight, join_or_start, key_of, joined, at_most_one, join_or_start_joins,
}

program : Unit {0}
unfolding init find replace discard submit start finish cleanup cancel reserve count_running
    hand_over in_flight lookup insert remove
program = tt

flights : Unit {0}
unfolding join_or_start key_of lookup insert SingleFlight.forget
flights = tt

abbrev idle : TaskScheduler
idle = record {
  max_concurrent = 2;
  permits = 2;
  reserved = 0;
  tasks = [];
  tasks_by_name = [];
  next_id = 0;
}

abbrev render : Task
render = record { id = 0; name = some "video-job-a"; phase = queued; cancel_requested = false }

abbrev waiting : TaskScheduler
waiting = (submit idle (some "video-job-a")).0

abbrev busy : TaskScheduler
busy = start waiting render

no_permits_refused : init 0 ≡ none
unfolding program
no_permits_refused = refl

busy_run : Reach idle busy
unfolding program
busy_run =
    next (next here (submitted (some "video-job-a") refl))
      (background (started render (record { found = refl; phase = refl }) (omega arith) refl))

running-le-max_example :
    (busy.permits + count_running busy.tasks ≡ 2) × (count_running busy.tasks ≤ 2)
unfolding program
running-le-max_example = running-le-max 2 {s = idle} {t = busy} refl busy_run

-- the name is submitted again while the first task is still in the set
abbrev twice : TaskScheduler
twice = (submit busy (some "video-job-a")).0

abbrev claimed : TaskScheduler
claimed = (reserve idle 1).0

abbrev taken : TaskScheduler
taken = hand_over claimed (some "video-job-a")

taken_run : Run 1 idle taken
unfolding program
taken_run =
    Run.next (Run.next Run.here (admitted refl))
      (handed_over (some "video-job-a") (omega arith) refl)

full_refuses : (reserve taken 1).1 ≡ scheduler_full 1 1
unfolding program
full_refuses = refl

in_flight-le-capacity_example : in_flight taken ≤ 1
unfolding program
in_flight-le-capacity_example = in_flight-le-capacity 2 1 {s = idle} {t = taken} refl taken_run

abbrev listing : SingleFlight
listing = (join_or_start SingleFlight.init "fal").0

listing_run : SingleFlight.Reach SingleFlight.init listing
listing_run = SingleFlight.next SingleFlight.here (joined "fal" refl)

at_most_one_example : (◌≡◌ {A = ℕ} 0 0) × (lookup "fal" listing.tasks ≡ some 0)
unfolding flights
at_most_one_example = at_most_one {s = listing} 0 0 "fal" listing_run refl refl
