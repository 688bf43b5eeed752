-- ===== src/AsyncJob/Examples.antt =====
-- The theorems on the job registry at concrete inputs, with jobs whose results are numbers.
use ground_control.AsyncJob.Job.{Scrubber, running_job, envelope, Job, done, Envelope}
use ground_control.AsyncJob.Registry.{
  Registry, poll, runs_in, is_same_attempt, start, start_checked, start_resolved, bound_kind,
  start_new, resolve_idempotent, is_contended, add_job, reap, new_job, is_object, update_first,
  reap_job,
}
use ground_control.AsyncJob.Capacity.{IsBounded, run-IsBounded}
use ground_control.AsyncJob.Options.{Options, validate}
use ground_control.Prelude.Text.{Text, text_eq, codes}
use ground_control.Prelude.{
  List, count, ℕ, arith, ◌≡◌, [], none, some, ◌≤◌, true, false, ◌∷◌, refl, map, All, find,
}
use ground_control.AsyncJob.Evolution.{Evolves}
use ground_control.AsyncJob.Settling.{
  run, Event, step, start_event, await_event, poll_event, cancel_event, reject_event,
  finalize_event, fulfil_event, await, is_settling, finalize, fulfil,
}
use ground_control.AsyncJob.Handle.{is_handle, job_id}
use ground_control.AsyncJob.Lifecycle.{run-Evolves}
use ground_control.AsyncJob.Attempts.{run-exclusive, run-idempotent}
use ground_control.AsyncJob.Polling.{start-poll, poll_found, IsPolled}
use ground_control.Prelude.Int.{sub_ℕ}
use ground_control.AsyncJob.Waiting.{finalize_releases}
use ground_control.AsyncJob.Shown.{IsEnd}

abbrev scrubber : Scrubber
scrubber = record { detect_sensitive = (λ t. text_eq t (codes "secret")); bound_message = (λ t. t) }

abbrev empty : Registry ℕ
empty = record { objects = []; seq = 0; capacity = 2 }

empty-IsBounded : IsBounded empty
empty-IsBounded = record { fits = omega arith; issued = tt; distinct = tt }

abbrev plain : Options ℕ
plain = record {
  idempotency_key = none;
  idempotency_namespace = none;
  fingerprint = none;
  execution_scope = none;
  single_flight = false;
  cancellable = true;
  retry_stale = none;
}

abbrev keyed : Options ℕ
keyed = record plain {
  idempotency_key = some (codes "attempt-1");
  idempotency_namespace = some (codes "publish");
  fingerprint = some (codes "0123456789abcdef0123456789abcdef0123456789abcdef0123456789abcdef");
}

abbrev alone : Options ℕ
alone = record plain { execution_scope = some (codes "repo"); single_flight = true }

abbrev kind : Text
kind = codes "review"

abbrev first_id : Text
first_id = job_id 5 1

abbrev events : List (Event ℕ)
events =
    start_event 5 kind keyed
    ∷ start_event 6 kind keyed
    ∷ start_event 7 kind alone
    ∷ start_event 8 kind alone
    ∷ await_event 9 first_id (some 1000) 0
    ∷ cancel_event 10 first_id
    ∷ reject_event first_id (record { message = codes "secret"; diagnostics = none })
    ∷ finalize_event 11 first_id
    ∷ fulfil_event (job_id 7 2) 42
    ∷ finalize_event 12 (job_id 7 2)
    ∷ poll_event 1800100 (job_id 7 2)
    ∷ start_event 1800101 kind keyed
    ∷ []

run-Evolves_example : Evolves empty.objects (run scrubber empty events).objects
run-Evolves_example = run-Evolves scrubber empty events tt

run-IsBounded_example : IsBounded (run scrubber empty events)
run-IsBounded_example = run-IsBounded scrubber empty events empty-IsBounded

exclusive_events : List (Event ℕ)
exclusive_events = start_event 5 kind alone ∷ start_event 6 kind alone ∷ poll_event 7 first_id ∷ []

run-exclusive_example :
    count (runs_in (some (codes "repo"))) (run scrubber empty exclusive_events).objects ≤ 1
unfolding exclusive_events
run-exclusive_example =
    run-exclusive scrubber (codes "repo") empty exclusive_events
      ((λ _. refl), ((λ _. refl), (tt, tt))) (omega arith)

run-idempotent_example : count (is_same_attempt keyed) (run scrubber empty events).objects ≤ 1
run-idempotent_example = run-idempotent scrubber keyed empty events refl (omega arith)

abbrev started : Registry ℕ
started = run scrubber empty (start_event 5 kind plain ∷ [])

poll_found_example :
    IsPolled scrubber 20 (new_job 5 1 kind plain) (poll scrubber 20 first_id started).1
unfolding run step start start_checked start_resolved start_new resolve_idempotent is_contended
    add_job reap is_handle job_id validate
poll_found_example =
    poll_found scrubber 20 first_id started (new_job 5 1 kind plain)
      (run-IsBounded scrubber empty (start_event 5 kind plain ∷ []) empty-IsBounded) refl refl

start-poll_example :
    (poll scrubber 20 first_id (start scrubber 5 kind plain empty).0).1
    ≡ running_job first_id (bound_kind kind) (sub_ℕ 20 5) none
unfolding validate is_contended reap
start-poll_example =
    start-poll scrubber 5 20 kind plain empty empty-IsBounded refl refl refl (omega arith)
      (omega arith) (omega arith)

-- A job that has settled while one request is held for it.
abbrev held : Registry ℕ
held = run scrubber empty (
    start_event 5 kind plain ∷ await_event 9 first_id (some 1000) 0 ∷ fulfil_event first_id 42 ∷ [])

abbrev settled_job : Job ℕ
settled_job = record (new_job 5 1 kind plain) { waiters = 0 ∷ []; result = some 42; status = done }

finalize_releases_example :
    (map (λ (t : ℕ × Envelope ℕ). t.0) (finalize scrubber 20 first_id held).1 ≡ settled_job.waiters)
    × All
        (λ (t : ℕ × Envelope ℕ). IsEnd scrubber 20 settled_job t.1)
        (finalize scrubber 20 first_id held).1
    × ((k : Job ℕ) × (find (is_object first_id) (finalize scrubber 20 first_id held).0.objects
          ≡ some k)
        × (k.waiters ≡ [])
        × (k.finished_at ≡ some 20))
unfolding run step start await new_job is_settling job_id is_handle validate fulfil update_first
    poll reap resolve_idempotent start_new reap_job envelope
finalize_releases_example = finalize_releases scrubber 20 first_id held settled_job refl refl
