-- ===== src/Tasks/Admission.antt =====
-- The bound on queued and running video jobs: `reserve` before the upload is read, and `submit` at
-- the end of the `with slot` block, with no `await` between it and the block's exit.
use openai_api_bridge.Prelude.{
  ℕ, ◌+◌, ◌≤◌, ◌<◌, String, ◌≡◌, ◌↔◌, refl, Option, some, List, [], ◌∷◌, arith, inl, inr,
  Bool-cases, true, leb, length,
}
use openai_api_bridge.Tasks.{
  Task, running, finished, TaskScheduler, slot, scheduler_full, init, replace, discard, submit,
  start, abandon, finish, cleanup, request_cancel, in_flight, reserve, exit_reservation,
}
use openai_api_bridge.Tasks.Steps.{
  Background, started, abandoned, ended, cleaned, cancelled, cancel_cases,
}

-- `submit` and then the exit of the `with slot` block
unfoldable pub hand_over : TaskScheduler → Option String → TaskScheduler
unfolding submit exit_reservation
hand_over s name = (exit_reservation true (submit s name).0).0

-- what requests do to the scheduler: nothing else reserves or submits
pub data Admits (capacity : ℕ) (s t : TaskScheduler) : Type 0 where
  admitted : t ≡ (reserve s capacity).0 → Admits capacity s t
  refused : 0 < s.reserved → t ≡ (exit_reservation true s).0 → Admits capacity s t
  handed_over : (name : Option String) → 0 < s.reserved → t ≡ hand_over s name → Admits capacity s t
  background : Background s t → Admits capacity s t

pub data Run (capacity : ℕ) (s : TaskScheduler) : TaskScheduler → Type 0 where
  here : Run capacity s s
  next : {t u : TaskScheduler} → Run capacity s t → Admits capacity t u → Run capacity s u

length-replace : (u : Task) (ts : List Task) → length (replace u ts) ≡ length ts
unfolding replace
length-replace u [] = refl
length-replace u (t ∷ ts) = ground (arith, length-replace u ts)

length-discard-le : (i : ℕ) (ts : List Task) → length (discard i ts) ≤ length ts
unfolding discard
length-discard-le i [] = omega arith
length-discard-le i (t ∷ ts) = ground (arith, length-discard-le i ts)

-- `reserve` hands out a slot exactly when fewer than `capacity` jobs are in flight, and then counts
-- it; otherwise it reports the two numbers and changes nothing.
pub reserve_exact :
    (s : TaskScheduler) (capacity : ℕ)
    → (((reserve s capacity).1 ≡ slot) ↔ (in_flight s < capacity))
      × (in_flight s < capacity → in_flight (reserve s capacity).0 ≡ in_flight s + 1)
      × (capacity ≤ in_flight s → reserve s capacity ≡ (s, scheduler_full (in_flight s) capacity))
unfolding reserve in_flight
reserve_exact s capacity = elim (Bool-cases (leb capacity (length s.tasks + s.reserved))) [
  | inl p ↦ rw p ((λ e. cc, λ h. absurd (ground arith)), λ h. absurd (ground arith), λ h. refl)
  | inr p ↦ rw p ((λ e. ground arith, λ h. refl), λ h. omega arith, λ h. absurd (ground arith))
]

background_le : {s t : TaskScheduler} → Background s t → in_flight t ≤ in_flight s
unfolding in_flight
background_le {s} (started u f pos e) =
    rw e (unfold start in omega (arith, length-replace (record u { phase = running }) s.tasks))
background_le {s} (abandoned u f e) =
    rw e (unfold abandon in omega (arith, length-replace (record u { phase = finished }) s.tasks))
background_le {s} (ended u f e) =
    rw e (unfold finish in omega (arith, length-replace (record u { phase = finished }) s.tasks))
background_le {s} (cleaned u f e) =
    rw e (unfold cleanup in omega (arith, length-discard-le u.id s.tasks))
background_le {s} (cancelled name e) = elim (cancel_cases s name) [
  | inl p ↦ rw (e, p) (omega arith)
  | inr (u, f, _, p) ↦
      rw (e, p)
        (unfold request_cancel in
          omega (arith, length-replace (record u { cancel_requested = true }) s.tasks))
]

Admits_le :
    (capacity : ℕ) {s t : TaskScheduler}
    → Admits capacity s t
    → in_flight s ≤ capacity
    → in_flight t ≤ capacity
Admits_le capacity {s} (admitted e) h = rw e (unfold reserve in_flight in ground arith)
Admits_le capacity {s} (refused pos e) h = rw e (unfold exit_reservation in_flight in omega arith)
Admits_le capacity {s} (handed_over name pos e) h = rw e (unfold hand_over in_flight in omega arith)
Admits_le capacity (background b) h = omega (arith, background_le b)

Run_le :
    (capacity : ℕ) {s t : TaskScheduler}
    → in_flight s ≤ capacity
    → Run capacity s t
    → in_flight t ≤ capacity
Run_le capacity h here = h
Run_le capacity h (next r a) = Admits_le capacity a (Run_le capacity h r)

-- However requests, their failures and the tasks interleave, the jobs in flight, those that only
-- hold a slot included, never pass the capacity.
pub in_flight-le-capacity :
    (n capacity : ℕ) {s t : TaskScheduler}
    → init n ≡ some s
    → Run capacity s t
    → in_flight t ≤ capacity
in_flight-le-capacity n capacity {s} h r =
    Run_le capacity {s = s} (unfold init in_flight in ground arith) r
