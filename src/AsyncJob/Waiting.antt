-- ===== src/AsyncJob/Waiting.antt =====
-- The held requests of `awaitAsyncJob` in mcp/ground-control/lib/async-job-registry.js.
use ground_control.AsyncJob.Job.{Envelope, envelope, Scrubber, Job, is_running, end_time}
use ground_control.AsyncJob.Registry.{update_first, update, Registry, is_object}
use ground_control.AsyncJob.Settling.{finalize_job, finalize, is_settling, released}
use ground_control.Prelude.{
  Bool, ℕ, List, map, ◌≡◌, true, false, ◌∷◌, find, arith, All, ap, some, [], refl, if◌then◌else◌,
  subst, sym,
}
use ground_control.Prelude.Text.{Text, text_eq}
use ground_control.AsyncJob.Shown.{IsEnd, shown-IsEnd, envelope-IsShown}

when_true {ℓ} : {A : Type ℓ} (x y : A) (b : Bool) → b ≡ true → (if b then x else y) ≡ x
when_true x y true h = refl
when_true x y false h = cc

module _ {R : Type 0} where
  settling_over : (j : Job R) → is_settling j ≡ true → is_running j.status ≡ false
  unfolding is_settling
  settling_over j settled = ground arith

  finalized_lem :
      (s : Scrubber) (now : ℕ) (j : Job R) (ended : Bool)
      → is_settling j ≡ ended
      → ended ≡ true
      → IsEnd s now j (envelope s now (finalize_job now j))
  unfolding finalize_job end_time
  finalized_lem s now j false same settled = cc
  finalized_lem s now j true same settled =
      let k : Job R = record j { finished_at = some now; waiters = [] } in
      subst (λ x. IsEnd s now j (envelope s now x)) (sym (when_true _ _ (is_settling j) same))
        (shown-IsEnd s now k (envelope s now k) (settling_over j same) (envelope-IsShown s now k))

  each_final :
      (s : Scrubber) (now : ℕ) (j : Job R) (e : Envelope R) (ws : List ℕ)
      → IsEnd s now j e
      → All (λ (t : ℕ × Envelope R). IsEnd s now j t.1) (map (λ w. (w, e)) ws)
  each_final s now j e [] ends = tt
  each_final s now j e (w ∷ ws) ends = (ends, each_final s now j e ws ends)

  map_first :
      (s : Scrubber) (e : Envelope R) (ws : List ℕ)
      → map (λ (t : ℕ × Envelope R). t.0) (map (λ w. (w, e)) ws) ≡ ws
  map_first s e [] = refl
  map_first s e (w ∷ ws) = ap (λ rest. w ∷ rest) (map_first s e ws)

  find-update_first :
      (p : Job R → Bool) (f : Job R → Job R) (js : List (Job R)) (j : Job R)
      → ((k : Job R) → p (f k) ≡ p k)
      → find p js ≡ some j
      → find p (update_first p f js) ≡ some (f j)
  unfolding update_first
  find-update_first p f [] j keeps h = cc
  find-update_first p f (k ∷ js) j keeps h =
      ground (arith, keeps k, find-update_first p f js j keeps)

  finalize_job-id : (now : ℕ) (k : Job R) → (finalize_job now k).id ≡ k.id
  unfolding finalize_job
  finalize_job-id now k = ground arith

  finalize_job_lem :
      (now : ℕ) (j : Job R)
      → is_settling j ≡ true
      → ((finalize_job now j).waiters ≡ []) × ((finalize_job now j).finished_at ≡ some now)
  unfolding finalize_job
  finalize_job_lem now j settled = ground arith

  released_lem :
      (s : Scrubber) (now : ℕ) (j : Job R)
      → is_settling j ≡ true
      → released s now (some j) ≡ map (λ w. (w, envelope s now (finalize_job now j))) j.waiters
  unfolding released
  released_lem s now j settled = when_true _ _ (is_settling j) settled

  -- When a settled job ends, every request that was held for it is answered, in order, with what
  -- became of the job: its result, its cancellation, or its failure, of which a sensitive text is
  -- told as redacted; each with the time from the start of the job to now. The job is left without
  -- waiters and with now as its end.
  pub finalize_releases :
      (s : Scrubber) (now : ℕ) (id : Text) (r : Registry R) (j : Job R)
      → find (is_object id) r.objects ≡ some j
      → is_settling j ≡ true
      → (map (λ (t : ℕ × Envelope R). t.0) (finalize s now id r).1 ≡ j.waiters)
        × All (λ (t : ℕ × Envelope R). IsEnd s now j t.1) (finalize s now id r).1
        × ((k : Job R) × (find (is_object id) (finalize s now id r).0.objects ≡ some k)
            × (k.waiters ≡ [])
            × (k.finished_at ≡ some now))
  unfolding finalize update
  finalize_releases s now id r j found settled =
      let after =
        find-update_first (is_object id) (finalize_job now) r.objects j
          (λ k. ap (λ t. text_eq t id) (finalize_job-id now k)) found in
      rw (found, released_lem s now j settled)
        (
          map_first s (envelope s now (finalize_job now j)) j.waiters,
          each_final s now j _ j.waiters (finalized_lem s now j (is_settling j) refl settled),
          (
            finalize_job now j,
            after,
            (finalize_job_lem now j settled).0,
            (finalize_job_lem now j settled).1,
          ),
        )
