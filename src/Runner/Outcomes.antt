-- ===== src/Runner/Outcomes.antt =====
-- What the whole run leaves in the table: a completed row with the render's results, or a terminal
-- row in any other case.
use openai_api_bridge.Prelude.{
  ℕ, String, ◌≡◌, refl, ◌⊎◌, inl, inr, Option, none, some, Option-cases,
}
use openai_api_bridge.Errors.{Exc, Outcome, returned, raised}
use openai_api_bridge.JobStore.{in_progress, completed, VideoJob, JobStore, no_change, patched}
use openai_api_bridge.Runner.{
  Action, ◌>>=◌, continue, pure, Await, finished, write, Env, persist_upstream_id, for_provider,
  completion, render, handle, catch, run_video_job,
}
use openai_api_bridge.Runner.Finish.{
  RowIs, IsThere, IsTame?, IsFair, IsTerminal, write-IsThere, write_lands, handle-IsTerminal,
}

-- `Q` of what is returned, `E` where something is raised
abbrev pub Post :
    {A : Type 0} → (A → JobStore → Type 0) → (JobStore → Type 0) → Outcome A × JobStore → Type 0
Post Q E (returned a, s) = Q a s
Post Q E (raised e, s) = E s

Post-bind :
    {A B : Type 0} (Q : A → JobStore → Type 0) (R : B → JobStore → Type 0) (E : JobStore → Type 0)
    (o : Outcome A) (s : JobStore) (f : A → Action B)
    → Post Q E (o, s)
    → ((a : A) (t : JobStore) → Q a t → Post R E (f a t))
    → Post R E (continue o f s)
Post-bind Q R E (returned a) s f h k = k a s h
Post-bind Q R E (raised e) s f h k = h

module _ {A B : Type 0} (Q : A → JobStore → Type 0) (R : B → JobStore → Type 0)
    (E : JobStore → Type 0) where
  Post-then :
      (m : Action A) (f : A → Action B) (s : JobStore)
      → Post Q E (m s)
      → ((a : A) (t : JobStore) → Q a t → Post R E (f a t))
      → Post R E ((m >>= f) s)
  Post-then m f s h k = Post-bind Q R E (m s).0 (m s).1 f h k

-- what the row says after a completed render
abbrev pub IsRendered : Env → VideoJob → Type 0
IsRendered env j =
    (j.status ≡ completed)
    × (j.progress_pct ≡ some 100)
    × ((r : Option String) × (env.generated ≡ returned r) × (j.aspect_ratio ≡ r))
    × ((f : String) × (env.stored ≡ returned f) × (j.file_id ≡ some f))

module _ (i : String) where
  known_outcome :
      {A : Type 0} (o : Outcome A) (s : JobStore)
      → IsThere i s
      → Post (λ a t. (o ≡ returned a) × IsThere i t) (IsThere i) (o, s)
  known_outcome (returned a) s h = (refl, h)
  known_outcome (raised e) s h = h

  any_outcome :
      (o : Outcome (Unit {0})) (s : JobStore)
      → IsThere i s
      → Post (λ _. IsThere i) (IsThere i) (o, s)
  any_outcome (returned a) s h = h
  any_outcome (raised e) s h = h

  persist-IsThere :
      (u : Option (String × Await)) (s : JobStore)
      → IsTame? i u
      → IsThere i s
      → IsThere i (persist_upstream_id i u s).1
  unfolding persist_upstream_id
  persist-IsThere none s t h = h
  persist-IsThere (some (id, a)) s t h =
      write-IsThere i (record no_change { upstream_id = some id }) a s t h

  complete-Post :
      (env : Env) (r : Option String) (f : String) (s : JobStore)
      → IsFair i env
      → env.generated ≡ returned r
      → env.stored ≡ returned f
      → IsThere i s
      → Post
          (λ _. RowIs (IsRendered env) i)
          (IsThere i)
          (write i (completion f r) env.on_complete s)
  unfolding write
  complete-Post env r f s fair g p h = elim (Option-cases env.on_complete.raises) [
    | inr (e, q) ↦ rw q (write-IsThere i (completion f r) env.on_complete s fair.complete h)
    | inl q ↦
        let (j, _, e) =
          write_lands i (completion f r) env.on_complete s fair.complete (fair.durable q) h in
        rw q (
          patched env.on_complete.now (completion f r) j,
          e,
          unfold patched in (refl, refl, (r, g, refl), (f, p, refl)),
        )
  ]

  render-Post :
      (env : Env) (s : JobStore)
      → IsFair i env
      → IsThere i s
      → Post (λ _. RowIs (IsRendered env) i) (IsThere i) (render i env s)
  unfolding render
  render-Post env s fair h =
      let R : Unit {0} → JobStore → Type 0 = λ _. RowIs (IsRendered env) i in
      let T : Unit {0} → JobStore → Type 0 = λ _. IsThere i in
      let start = record no_change { status = some in_progress } in
      Post-then T R (IsThere i) (write i start env.on_start) _ s
        (any_outcome (finished env.on_start.raises) (write i start env.on_start s).1
          (write-IsThere i start env.on_start s fair.start h))
        λ _ s₁ h₁.
          Post-then T R (IsThere i) (pure (for_provider env.provider)) _ s₁
            (any_outcome (for_provider env.provider) s₁ h₁)
            λ _ s₂ h₂.
              Post-then T R (IsThere i) (persist_upstream_id i env.upstream) _ s₂
                (any_outcome (persist_upstream_id i env.upstream s₂).0
                  (persist_upstream_id i env.upstream s₂).1
                  (persist-IsThere env.upstream s₂ fair.upstream h₂))
                λ _ s₃ h₃.
                  Post-then (λ r t. (env.generated ≡ returned r) × IsThere i t) R (IsThere i)
                    (pure env.generated) _ s₃ (known_outcome env.generated s₃ h₃)
                    λ r s₄ h₄.
                      Post-then (λ f t. (env.stored ≡ returned f) × IsThere i t) R (IsThere i)
                        (pure env.stored) _ s₄ (known_outcome env.stored s₄ h₄.1)
                        λ f s₅ h₅. complete-Post env r f s₅ fair h₄.0 h₅.0 h₅.1

  -- the `except` clause takes over from wherever the render stopped
  catch-Post :
      (seconds : Option ℕ) (env : Env) (o : Outcome (Unit {0})) (s : JobStore)
      → IsFair i env
      → Post (λ _. RowIs (IsRendered env) i) (IsThere i) (o, s)
      → ((o ≡ returned tt) × RowIs (IsRendered env) i (catch o (handle i seconds env) s).1)
        ⊎ ((e : Exc) × (o ≡ raised e) × RowIs IsTerminal i (catch o (handle i seconds env) s).1)
  catch-Post seconds env (returned u) s fair h = inl (refl, h)
  catch-Post seconds env (raised e) s fair h =
      inr (e, refl, handle-IsTerminal i seconds env e s fair h)

  -- A job whose row is there ends with a terminal row, whatever is raised where and whatever other
  -- tasks do to the table meanwhile, if they keep the row, if a completing write that returns has
  -- landed, and if the write of the `except` clause lands. If the render goes through, the row is
  -- completed, with the stored file, progress 100 and exactly the ratio that the backend reported.
  pub run_settles :
      (seconds : Option ℕ) (env : Env) (s : JobStore)
      → IsFair i env
      → IsThere i s
      → (((render i env s).0 ≡ returned tt)
          × RowIs (IsRendered env) i (run_video_job i seconds env s).1)
        ⊎ ((e : Exc) × ((render i env s).0 ≡ raised e)
            × RowIs IsTerminal i (run_video_job i seconds env s).1)
  unfolding run_video_job
  run_settles seconds env s fair h =
      catch-Post seconds env (render i env s).0 (render i env s).1 fair (render-Post env s fair h)
