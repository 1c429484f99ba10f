-- ===== src/Tasks/Steps.antt =====
-- The interleavings of the scheduler's calls and of the event loop's steps, and the semaphore.
use openai_api_bridge.Prelude.{
  ℕ, ◌+◌, ◌≤◌, ◌<◌, String, ◌≡◌, refl, Option, some, List, [], ◌∷◌, arith, ◌⊎◌, inl, inr,
  Bool-cases, true, Option-cases, lookup,
}
use openai_api_bridge.Tasks.{
  Task, Phase, queued, running, finished, TaskScheduler, init, find, replace, discard, submit,
  start, abandon, finish, cleanup, cancel, request_cancel, is_done, reserve, release_reservation,
}

-- the permits that a task holds
abbrev pub held : Phase → ℕ
held running = 1
held _ = 0

unfoldable pub count_running : List Task → ℕ
count_running [] = 0
count_running (t ∷ ts) = held t.phase + count_running ts

-- `u` is in the set, in phase `p`
pub record InPhase (s : TaskScheduler) (p : Phase) (u : Task) : Type 0 where
  pub found : find u.id s.tasks ≡ some u
  pub phase : u.phase ≡ p

-- what the event loop and a `cancel` do to the tasks of the set
pub data Background (s t : TaskScheduler) : Type 0 where
  started : (u : Task) → InPhase s queued u → 0 < s.permits → t ≡ start s u → Background s t
  abandoned : (u : Task) → InPhase s queued u → t ≡ abandon s u → Background s t
  ended : (u : Task) → InPhase s running u → t ≡ finish s u → Background s t
  cleaned : (u : Task) → InPhase s finished u → t ≡ cleanup s u → Background s t
  cancelled : (name : String) → t ≡ (cancel s name).0 → Background s t

pub data Step (s t : TaskScheduler) : Type 0 where
  submitted : (name : Option String) → t ≡ (submit s name).0 → Step s t
  background : Background s t → Step s t
  claimed : (capacity : ℕ) → t ≡ (reserve s capacity).0 → Step s t
  released : 0 < s.reserved → t ≡ release_reservation s → Step s t

pub data Reach (s : TaskScheduler) : TaskScheduler → Type 0 where
  here : Reach s s
  next : {t u : TaskScheduler} → Reach s t → Step t u → Reach s u

-- every permit is either free or held by a running task
pub record IsBalanced (n : ℕ) (s : TaskScheduler) : Type 0 where
  pub balance : s.permits + count_running s.tasks ≡ n

pub count-replace :
    (u v : Task) (ts : List Task)
    → v.id ≡ u.id
    → find u.id ts ≡ some u
    → count_running (replace v ts) + held u.phase ≡ count_running ts + held v.phase
unfolding count_running find replace
count-replace u v [] e h = cc
count-replace u v (t ∷ ts) e h = ground (arith, count-replace u v ts e)

pub count-discard :
    (u : Task) (ts : List Task)
    → find u.id ts ≡ some u
    → count_running (discard u.id ts) + held u.phase ≡ count_running ts
unfolding count_running find discard
count-discard u [] h = cc
count-discard u (t ∷ ts) h = ground (arith, count-discard u ts)

pub find-id : (i : ℕ) (ts : List Task) (t : Task) → find i ts ≡ some t → t.id ≡ i
unfolding find
find-id i [] t h = cc
find-id i (u ∷ ts) t h = ground (arith, find-id i ts t)

-- `cancel` changes nothing, or it marks a task of the set that is not done.
pub cancel_cases :
    (s : TaskScheduler) (name : String)
    → ((cancel s name).0 ≡ s)
      ⊎ ((u : Task) × (find u.id s.tasks ≡ some u)
          × (lookup name s.tasks_by_name ≡ some u.id)
          × ((cancel s name).0 ≡ request_cancel s u))
unfolding cancel
cancel_cases s name = elim (Option-cases (lookup name s.tasks_by_name)) [
  | inl p ↦ inl (rw (p, cancel))
  | inr (i, p) ↦ elim (Option-cases (find i s.tasks)) [
    | inl q ↦ inl (rw (p, q, cancel))
    | inr (t, q) ↦
        let e : t.id ≡ i = find-id i s.tasks t q in
        elim (Bool-cases (is_done t.phase)) [
          | inl d ↦ inl (rw (p, q, cancel) (rw d))
          | inr d ↦ inr (t, cc, cc, rw (p, q, cancel) (rw d))
        ]
  ]
]

request_cancel-IsBalanced :
    {n : ℕ} (s : TaskScheduler) (u : Task)
    → find u.id s.tasks ≡ some u
    → IsBalanced n s
    → IsBalanced n (request_cancel s u)
unfolding request_cancel
request_cancel-IsBalanced s u f h = record {
  balance = omega (arith, count-replace u (record u { cancel_requested = true }) s.tasks refl f);
}

Background-IsBalanced :
    {n : ℕ} {s t : TaskScheduler} → Background s t → IsBalanced n s → IsBalanced n t
Background-IsBalanced {s} (started u f pos e) h = rw e (
    unfold start in
    record {
      balance = ground (
        arith,
        h.balance,
        f.phase,
        pos,
        count-replace u (record u { phase = running }) s.tasks refl f.found,
      );
    })
Background-IsBalanced {s} (abandoned u f e) h = rw e (
    unfold abandon in
    record {
      balance = ground (
        arith,
        h.balance,
        f.phase,
        count-replace u (record u { phase = finished }) s.tasks refl f.found,
      );
    })
Background-IsBalanced {s} (ended u f e) h = rw e (
    unfold finish in
    record {
      balance = ground (
        arith,
        h.balance,
        f.phase,
        count-replace u (record u { phase = finished }) s.tasks refl f.found,
      );
    })
Background-IsBalanced {s} (cleaned u f e) h = rw e (
    unfold cleanup in
    record { balance = ground (arith, h.balance, f.phase, count-discard u s.tasks f.found) })
Background-IsBalanced {s} (cancelled name e) h = elim (cancel_cases s name) [
  | inl p ↦ rw (e, p) h
  | inr (u, f, _, p) ↦ rw (e, p) (request_cancel-IsBalanced s u f h)
]

Step-IsBalanced : {n : ℕ} {s t : TaskScheduler} → Step s t → IsBalanced n s → IsBalanced n t
Step-IsBalanced {s} (submitted name e) h =
    rw e (unfold submit count_running in record { balance = omega (arith, h.balance) })
Step-IsBalanced {s} (claimed capacity e) h =
    rw e (unfold reserve in record { balance = ground (arith, h.balance) })
Step-IsBalanced {s} (released pos e) h =
    rw e (unfold release_reservation in record { balance = h.balance })
Step-IsBalanced (background b) h = Background-IsBalanced b h

Reach-IsBalanced : {n : ℕ} {s t : TaskScheduler} → IsBalanced n s → Reach s t → IsBalanced n t
Reach-IsBalanced h here = h
Reach-IsBalanced h (next r st) = Step-IsBalanced st (Reach-IsBalanced h r)

init-IsBalanced : (n : ℕ) {s : TaskScheduler} → init n ≡ some s → IsBalanced n s
unfolding init count_running
init-IsBalanced n h = record { balance = ground arith }

-- In every state that a scheduler of `n` permits reaches, each permit is either free or held by a
-- running task, and at most `n` tasks run at once.
pub running-le-max :
    (n : ℕ) {s t : TaskScheduler}
    → init n ≡ some s
    → Reach s t
    → (t.permits + count_running t.tasks ≡ n) × (count_running t.tasks ≤ n)
running-le-max n h r =
    let b = (Reach-IsBalanced (init-IsBalanced n h) r).balance in (b, omega (arith, b))
