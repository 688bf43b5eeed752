-- ===== src/AsyncJob/Job.antt =====
-- The job object of mcp/ground-control/lib/async-job-registry.js, what a poll shows of it, and the
-- scrubbing of what a failing tool reports. `R` is the type of a tool's result.
use ground_control.Prelude.{ℕ, Bool, true, false, Option, none, some, List, if◌then◌else◌}
use ground_control.Prelude.Int.{ℤ, pos, sub_ℕ}
use ground_control.Prelude.Text.{Text, codes, text_eq}

pub data Status : Type 0 where
  running done failed cancelled : Status

-- The `===` of two status words.
unfoldable pub is_running : Status → Bool
is_running running = true
is_running _ = false

unfoldable pub is_done : Status → Bool
is_done done = true
is_done _ = false

pub data Phase : Type 0 where
  completion policy gate : Phase

pub record Progress : Type 0 where
  pub phase : Phase
  pub phase_started_ms : ℤ
  pub last_activity_ms : ℤ
  pub stdout_bytes : ℤ
  pub stderr_bytes : ℤ

-- What a tool reports: `none` stands for a value that is no finite number.
pub record Snapshot : Type 0 where
  pub phase : Text
  pub phase_started_ms : Option ℤ
  pub last_activity_ms : Option ℤ
  pub stdout_bytes : Option ℤ
  pub stderr_bytes : Option ℤ

unfoldable pub num : Option ℤ → ℤ
num none = pos 0
num (some n) = n

-- `_ASYNC_JOB_PROGRESS_PHASES`, and the name for every other phase.
unfoldable pub bound_phase : Text → Phase
unfolding text_eq
bound_phase s =
    if text_eq s (codes "completion")
    then completion
    else if text_eq s (codes "policy")
    then policy
    else gate

unfoldable pub bound_progress : Option Snapshot → Option Progress
unfolding num bound_phase
bound_progress none = none
bound_progress (some s) = some (record {
  phase = bound_phase s.phase;
  phase_started_ms = num s.phase_started_ms;
  last_activity_ms = num s.last_activity_ms;
  stdout_bytes = num s.stdout_bytes;
  stderr_bytes = num s.stderr_bytes;
})

-- `detectSensitiveBodyContent` and `boundFailureMessage`, which other modules define.
pub record Scrubber : Type 0 where
  pub detect_sensitive : Text → Bool
  pub bound_message : Text → Text

-- An error as it is thrown: its message, and the JSON of its bounded diagnostics, if it has any.
pub record Failure : Type 0 where
  pub message : Text
  pub diagnostics : Option Text

abbrev pub redacted : Text
redacted = codes "<redacted>"

unfoldable pub safe_error : Scrubber → Text → Text
safe_error s raw = if s.detect_sensitive raw then redacted else s.bound_message raw

unfoldable pub safe_diagnostics : Scrubber → Option Text → Option Text
safe_diagnostics s none = none
safe_diagnostics s (some json) = if s.detect_sensitive json then none else some json

-- `mapped` says whether the object stands in `_asyncJobs`, whose order is that of creation;
-- a waiter is the `settle` of one held request, by its number.
pub record Job (R : Type 0) : Type 0 where
  pub id : Text
  pub kind : Text
  pub status : Status
  pub started_at : ℕ
  pub finished_at : Option ℕ
  pub result : Option R
  pub error : Option Text
  pub aborted : Bool
  pub cancellable : Bool
  pub idempotency_key : Option Text
  pub idempotency_namespace : Option Text
  pub fingerprint : Option Text
  pub execution_scope : Option Text
  pub progress : Option Progress
  pub diagnostics : Option Text
  pub waiters : List ℕ
  pub mapped : Bool

-- The refusals of the registry, by their `error` code.
pub data Refusal : Type 0 where
  job_not_found job_options_invalid job_idempotency_input_invalid : Refusal
  job_execution_scope_invalid job_idempotency_conflict job_execution_contended : Refusal
  job_capacity_exhausted job_wait_invalid : Refusal

pub data Envelope (R : Type 0) : Type 0 where
  running_job : (id kind : Text) (elapsed_ms : ℤ) (progress : Option Progress) → Envelope R
  done_job : (id kind : Text) (elapsed_ms : ℤ) (result : Option R) → Envelope R
  cancelled_job : (id kind : Text) (elapsed_ms : ℤ) → Envelope R
  failed_job :
      (id kind : Text) (elapsed_ms : ℤ) (message : Text) (diagnostics : Option Text) → Envelope R
  terminal_job : (id kind : Text) (status : Status) → Envelope R
  job_not_cancellable : (id kind : Text) → Envelope R
  cancelling_job : (id kind : Text) → Envelope R
  refused : Refusal → Envelope R

-- `job.finishedAt ?? _asyncJobNow()`
unfoldable pub end_time : Option ℕ → ℕ → ℕ
end_time none now = now
end_time (some t) now = t

-- `String(error?.message ?? error ?? "background job failed")` on the stored message.
unfoldable pub stored_error : Option Text → Text
stored_error none = codes "background job failed"
stored_error (some e) = e

module _ {R : Type 0} where
  unfoldable pub envelope_of : Scrubber → ℕ → Job R → Status → Envelope R
  unfolding end_time stored_error safe_error
  envelope_of s now j running =
      running_job j.id j.kind (sub_ℕ (end_time j.finished_at now) j.started_at) j.progress
  envelope_of s now j done =
      done_job j.id j.kind (sub_ℕ (end_time j.finished_at now) j.started_at) j.result
  envelope_of s now j cancelled =
      cancelled_job j.id j.kind (sub_ℕ (end_time j.finished_at now) j.started_at)
  envelope_of s now j failed =
      failed_job j.id j.kind (sub_ℕ (end_time j.finished_at now) j.started_at)
        (safe_error s (stored_error j.error)) j.diagnostics

  -- `_asyncJobEnvelope`
  unfoldable pub envelope : Scrubber → ℕ → Job R → Envelope R
  unfolding envelope_of
  envelope s now j = envelope_of s now j j.status
