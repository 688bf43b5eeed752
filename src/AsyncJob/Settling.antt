-- ===== src/AsyncJob/Settling.antt =====
-- How a job of mcp/ground-control/lib/async-job-registry.js ends: the promise chain of
-- `startAsyncJob`, the held requests of `awaitAsyncJob`, and the events in one type.
use ground_control.Prelude.{
  ℕ, Bool, false, not, ◌&&◌, Option, none, some, List, [], ◌∷◌, ◌++◌, map, if◌then◌else◌, ltb, leb,
  ◌==◌, find, any, filter, is_some,
}
use ground_control.Prelude.Text.{Text}
use ground_control.AsyncJob.Job.{
  done, failed, cancelled, is_running, Snapshot, Scrubber, Failure, safe_error, safe_diagnostics,
  Job, job_wait_invalid, Envelope, running_job, refused, envelope,
}
use ground_control.AsyncJob.Options.{Options}
use ground_control.AsyncJob.Registry.{
  Registry, async_job_wait_max_ms, update, is_mapped_as, is_object, start, poll, cancel, report,
}

unfoldable pub is_valid_wait : Option ℕ → Bool
is_valid_wait none = false
is_valid_wait (some ms) = ltb 0 ms && leb ms async_job_wait_max_ms

module _ {R : Type 0} where
  -- A promise settles once: of a job that has settled nothing changes.
  unfoldable pub fulfil_job : R → Job R → Job R
  unfolding is_running
  fulfil_job v j = if is_running j.status then record j { result = some v; status = done } else j

  unfoldable pub reject_job : Scrubber → Failure → Job R → Job R
  unfolding is_running safe_error safe_diagnostics
  reject_job s e j =
      if is_running j.status
      then record j {
        error = some (safe_error s e.message);
        diagnostics = safe_diagnostics s e.diagnostics;
        status = if j.aborted then cancelled else failed;
      }
      else j

  -- The `.finally` comes once, and after the job has settled.
  unfoldable pub is_settling : Job R → Bool
  unfolding is_running
  is_settling j = not (is_running j.status) && not (is_some j.finished_at)

  unfoldable pub finalize_job : ℕ → Job R → Job R
  unfolding is_settling
  finalize_job now j =
      if is_settling j then record j { finished_at = some now; waiters = [] } else j

  unfoldable pub fulfil : Text → R → Registry R → Registry R
  unfolding update fulfil_job
  fulfil id v = update (is_object id) (fulfil_job v)

  unfoldable pub reject : Scrubber → Text → Failure → Registry R → Registry R
  unfolding update reject_job
  reject s id e = update (is_object id) (reject_job s e)

  -- What the released waiters of one job are told.
  unfoldable pub released : Scrubber → ℕ → Option (Job R) → List (ℕ × Envelope R)
  unfolding finalize_job
  released s now none = []
  released s now (some j) =
      if is_settling j then map (λ w. (w, envelope s now (finalize_job now j))) j.waiters else []

  unfoldable pub finalize : Scrubber → ℕ → Text → Registry R → Registry R × List (ℕ × Envelope R)
  unfolding update released
  finalize s now id r =
      (update (is_object id) (finalize_job now) r, released s now (find (is_object id) r.objects))

  abbrev pub hold : ℕ → Job R → Job R
  hold w j = record j { waiters = j.waiters ++ w ∷ [] }

  unfoldable pub await_polled :
      Text → ℕ → Registry R × Envelope R → Registry R × Option (Envelope R)
  unfolding update
  await_polled id w (r, running_job _ _ _ _) = (update (is_mapped_as id) (hold w) r, none)
  await_polled id w (r, reply) = (r, some reply)

  -- `awaitAsyncJob`: no reply means that the request is held. `none` for `waitMs` is a value that is
  -- no whole number, or a negative one.
  unfoldable pub await :
      Scrubber → ℕ → Text → Option ℕ → ℕ → Registry R → Registry R × Option (Envelope R)
  unfolding is_valid_wait await_polled
  await s now id wait_ms w r =
      if is_valid_wait wait_ms
      then await_polled id w (poll s now id r)
      else (r, some (refused job_wait_invalid))

  abbrev pub release : ℕ → Job R → Job R
  release w j = record j { waiters = filter (λ v. not (v == w)) j.waiters }

  unfoldable pub told : Scrubber → ℕ → ℕ → Option (Job R) → List (ℕ × Envelope R)
  told s now w none = []
  told s now w (some j) =
      if any (λ v. v == w) j.waiters then (w, envelope s now (release w j)) ∷ [] else []

  -- The timer of `awaitAsyncJob` runs out.
  unfoldable pub expire : Scrubber → ℕ → Text → ℕ → Registry R → Registry R × List (ℕ × Envelope R)
  unfolding update told
  expire s now id w r =
      (update (is_object id) (release w) r, told s now w (find (is_object id) r.objects))

pub data Event (R : Type 0) : Type 0 where
  start_event : (now : ℕ) (kind : Text) (options : Options R) → Event R
  poll_event cancel_event finalize_event : (now : ℕ) (id : Text) → Event R
  await_event : (now : ℕ) (id : Text) (wait_ms : Option ℕ) (waiter : ℕ) → Event R
  report_event : (id : Text) (snapshot : Option Snapshot) → Event R
  fulfil_event : (id : Text) (value : R) → Event R
  reject_event : (id : Text) (failure : Failure) → Event R
  expire_event : (now : ℕ) (id : Text) (waiter : ℕ) → Event R

module _ {R : Type 0} (s : Scrubber) where
  -- The registry after one event.
  unfoldable pub step : Registry R → Event R → Registry R
  step r (start_event now kind o) = (start s now kind o r).0
  step r (poll_event now id) = (poll s now id r).0
  step r (cancel_event now id) = (cancel now id r).0
  step r (finalize_event now id) = (finalize s now id r).0
  step r (await_event now id wait_ms w) = (await s now id wait_ms w r).0
  step r (report_event id snapshot) = report id snapshot r
  step r (fulfil_event id v) = fulfil id v r
  step r (reject_event id e) = reject s id e r
  step r (expire_event now id w) = (expire s now id w r).0

  unfoldable pub run : Registry R → List (Event R) → Registry R
  unfolding step
  run r [] = r
  run r (e ∷ es) = run (step r e) es
