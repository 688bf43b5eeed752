-- ===== src/AsyncJob/Attempts.antt =====
-- Single flight and idempotency in mcp/ground-control/lib/async-job-registry.js, over every sequence
-- of events.
use ground_control.Prelude.{
  ℕ, ◌≤◌, ◌≡◌, refl, ap, true, false, Option, none, some, List, [], ◌∷◌, arith, count, find, any,
  is_some, All, subst,
}
use ground_control.Prelude.Text.{Text, option_eq, option_eq_iff}
use ground_control.AsyncJob.Job.{Job, Scrubber, is_running}
use ground_control.AsyncJob.Options.{Options}
use ground_control.AsyncJob.Registry.{
  Registry, update, reap_job, reap, resolve_existing, resolve_idempotent, is_same_attempt, new_job,
  runs_in, is_contended,
}
use ground_control.AsyncJob.Settling.{
  fulfil_job, reject_job, finalize_job, Event, step, run, start_event,
}
use ground_control.AsyncJob.Exclusion.{
  IsClosed, number, number-step, number-start, count_of_none, count_of_not_any, count_of_taken,
}

module _ {R : Type 0} where
  runs_in-IsClosed : (scope : Option Text) → IsClosed (runs_in {R = R} scope)
  unfolding reap_job fulfil_job reject_job finalize_job is_running
  runs_in-IsClosed scope = record {
    reaps = λ now j h. ground arith;
    unmaps = λ j h. ground arith;
    holds = λ w j h. h;
    releases = λ w j h. h;
    aborts = λ j h. h;
    reports = λ snapshot j h. h;
    fulfils = λ v j h. ground arith;
    rejects = λ s e j h. ground arith;
    finalizes = λ now j h. ground arith;
  }

  same_attempt-IsClosed : (o : Options R) → IsClosed (is_same_attempt o)
  unfolding reap_job fulfil_job reject_job finalize_job
  same_attempt-IsClosed o = record {
    reaps = λ now j h. ground arith;
    unmaps = λ j h. ground arith;
    holds = λ w j h. h;
    releases = λ w j h. h;
    aborts = λ j h. h;
    reports = λ snapshot j h. h;
    fulfils = λ v j h. ground arith;
    rejects = λ s e j h. ground arith;
    finalizes = λ now j h. ground arith;
  }

  -- Every start in `scope` asks for single flight.
  abbrev pub FliesAlone : Text → Event R → Type 0
  FliesAlone scope (start_event now kind o) =
      option_eq o.execution_scope (some scope) ≡ true → o.single_flight ≡ true
  FliesAlone scope _ = Unit

  contended_alone :
      (scope : Text) (o : Options R) (now seq : ℕ) (kind : Text) (q : Registry R)
      → (option_eq o.execution_scope (some scope) ≡ true → o.single_flight ≡ true)
      → is_contended o q ≡ false
      → runs_in (some scope) (new_job now seq kind o) ≡ true
      → number (runs_in (some scope)) q ≡ 0
  unfolding new_job is_contended
  contended_alone scope o now seq kind q alone free new =
      let same : option_eq o.execution_scope (some scope) ≡ true = ground arith in
      let e : o.execution_scope ≡ some scope = (option_eq_iff _ _).0 same in
      count_of_not_any (runs_in (some scope)) q.objects
        (subst (λ x. any (runs_in x) q.objects ≡ false) e (ground (arith, alone same)))

  step-exclusive :
      (s : Scrubber) (scope : Text) (r : Registry R) (e : Event R)
      → FliesAlone scope e
      → number (runs_in (some scope)) r ≤ 1
      → number (runs_in (some scope)) (step s r e) ≤ 1
  step-exclusive s scope r e alone le =
      number-step (runs_in (some scope)) (runs_in-IsClosed (some scope)) s r e
        (λ now kind o same.
          number-start (runs_in (some scope)) (runs_in-IsClosed (some scope)) s now kind o r
            (λ seq q _ _ free new.
              contended_alone scope o now seq kind q (subst (FliesAlone scope) same alone) free new)
            le)
        le

  -- If every start in an execution scope asks for single flight, and at most one job of that scope
  -- runs at first, then at most one runs at any time, whatever the sequence of events.
  pub run-exclusive :
      (s : Scrubber) (scope : Text) (r : Registry R) (es : List (Event R))
      → All (FliesAlone scope) es
      → count (runs_in (some scope)) r.objects ≤ 1
      → count (runs_in (some scope)) (run s r es).objects ≤ 1
  unfolding run
  run-exclusive s scope r [] alone le = le
  run-exclusive s scope r (e ∷ es) alone le =
      run-exclusive s scope (step s r e) es alone.1 (step-exclusive s scope r e alone.0 le)

  -- Two options that name one logical attempt look for the same objects.
  same_search :
      (o o' : Options R) (now seq : ℕ) (kind : Text)
      → is_same_attempt o (new_job now seq kind o') ≡ true
      → (o'.idempotency_key ≡ o.idempotency_key)
        × (o'.idempotency_namespace ≡ o.idempotency_namespace)
  unfolding new_job
  same_search o o' now seq kind h = ground (
    arith,
    option_eq_iff o'.idempotency_key o.idempotency_key,
    option_eq_iff o'.idempotency_namespace o.idempotency_namespace,
  )

  -- After a search that lets a new job start, no job of the attempt is left in the map.
  resolved_alone :
      (s : Scrubber) (now : ℕ) (o : Options R) (r q : Registry R) (found : Option (Job R))
      → find (is_same_attempt o) r.objects ≡ found
      → number (is_same_attempt o) r ≤ 1
      → resolve_existing s now o r found ≡ (q, none)
      → number (is_same_attempt o) q ≡ 0
  unfolding resolve_existing update
  resolved_alone s now o r q none e le h =
      let same : r ≡ q = ap (λ t. t.0) h in
      subst (λ t. number (is_same_attempt o) t ≡ 0) same
        (count_of_none (is_same_attempt o) r.objects e)
  resolved_alone s now o r q (some j) e le h =
      ground (arith, count_of_taken (is_same_attempt o) r.objects (λ k. refl))

  start_alone :
      (s : Scrubber) (now : ℕ) (o o' : Options R) (r q : Registry R)
      → is_some o.idempotency_key ≡ true
      → o'.idempotency_key ≡ o.idempotency_key
      → o'.idempotency_namespace ≡ o.idempotency_namespace
      → number (is_same_attempt o) r ≤ 1
      → resolve_idempotent s now o' r ≡ (q, none)
      → number (is_same_attempt o) q ≡ 0
  unfolding resolve_idempotent
  start_alone s now o o' r q keyed key namespace le h =
      let keyed' : is_some o'.idempotency_key ≡ true = rw key keyed in
      let same : is_same_attempt o' ≡ is_same_attempt o = rw (key, namespace) refl in
      let le' : number (is_same_attempt o') r ≤ 1 = rw same le in
      rw (← same) (
        resolved_alone s now o' r q (find (is_same_attempt o') r.objects) refl le' (rw keyed' at h))

  step-idempotent :
      (s : Scrubber) (o : Options R) (r : Registry R) (e : Event R)
      → is_some o.idempotency_key ≡ true
      → number (is_same_attempt o) r ≤ 1
      → number (is_same_attempt o) (step s r e) ≤ 1
  step-idempotent s o r e keyed le =
      number-step (is_same_attempt o) (same_attempt-IsClosed o) s r e
        (λ now kind o' _.
          number-start (is_same_attempt o) (same_attempt-IsClosed o) s now kind o' r
            (λ seq q reaped resolved _ new.
              let (key, namespace) = same_search o o' now seq kind new in
              start_alone s now o o' (reap now r) q keyed key namespace reaped resolved)
            le)
        le

  -- For every idempotency key and namespace, where the map holds at most one job at first, it holds
  -- at most one at any time, whatever the sequence of events: a replayed start never makes a second
  -- one.
  pub run-idempotent :
      (s : Scrubber) (o : Options R) (r : Registry R) (es : List (Event R))
      → is_some o.idempotency_key ≡ true
      → count (is_same_attempt o) r.objects ≤ 1
      → count (is_same_attempt o) (run s r es).objects ≤ 1
  unfolding run
  run-idempotent s o r [] keyed le = le
  run-idempotent s o r (e ∷ es) keyed le =
      run-idempotent s o (step s r e) es keyed (step-idempotent s o r e keyed le)
