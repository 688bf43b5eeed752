-- ===== src/AsyncJob/Registry.antt =====
-- The registry of mcp/ground-control/lib/async-job-registry.js and its operations. Each operation
-- takes its reading of the clock as an argument, and returns the new registry with its reply.
-- `fulfil`, `reject` and `finalize` are the reactions of the promise chain in `startAsyncJob`, and
-- `expire` is the timer of a held request; the environment chooses when they come.
use ground_control.Prelude.{
  ℕ, suc, ◌+◌, ◌*◌, Bool, true, false, not, ◌&&◌, Option, none, some, List, [], ◌∷◌, ◌++◌, map,
  if◌then◌else◌, ltb, leb, length, find, any, count, is_some,
}
use ground_control.Prelude.Text.{Text, codes, text_eq, option_eq}
use ground_control.AsyncJob.Handle.{job_id, is_handle}
use ground_control.AsyncJob.Job.{
  running, is_running, is_done, Snapshot, bound_progress, Scrubber, Job, job_not_found,
  job_idempotency_conflict, job_execution_contended, job_capacity_exhausted, Envelope, terminal_job,
  job_not_cancellable, cancelling_job, refused, envelope, Refusal,
}
use ground_control.AsyncJob.Options.{Options, validate}

-- The objects in the order of creation, those that are no longer in the map among them.
pub record Registry (R : Type 0) : Type 0 where
  pub objects : List (Job R)
  pub seq : ℕ
  pub capacity : ℕ

abbrev pub async_job_ttl_ms : ℕ
async_job_ttl_ms = 30 * 60 * 1000

abbrev pub async_job_wait_max_ms : ℕ
async_job_wait_max_ms = 1800 * 1000

unfoldable pub is_expired : ℕ → Option ℕ → Bool
is_expired now none = false
is_expired now (some t) = ltb (t + async_job_ttl_ms) now

unfoldable pub bound_kind : Text → Text
bound_kind kind = if ltb 0 (length kind) && leb (length kind) 80 then kind else codes "background"

module _ {R : Type 0} where
  -- The one object that a test finds is changed in place.
  unfoldable pub update_first : (Job R → Bool) → (Job R → Job R) → List (Job R) → List (Job R)
  update_first p f [] = []
  update_first p f (j ∷ js) = if p j then f j ∷ js else j ∷ update_first p f js

  unfoldable pub update : (Job R → Bool) → (Job R → Job R) → Registry R → Registry R
  update p f r = record r { objects = update_first p f r.objects }

  -- `_asyncJobs.get(id)` finds the objects that pass this.
  abbrev pub is_mapped_as : Text → Job R → Bool
  is_mapped_as id j = j.mapped && text_eq j.id id

  -- The object that the closures of a job hold, in the map or not.
  abbrev pub is_object : Text → Job R → Bool
  is_object id j = text_eq j.id id

  abbrev pub unmap : Job R → Job R
  unmap j = record j { mapped = false }

  unfoldable pub reap_job : ℕ → Job R → Job R
  unfolding is_expired
  reap_job now j = if j.mapped && is_expired now j.finished_at then unmap j else j

  -- `_reapExpiredAsyncJobs`
  unfoldable pub reap : ℕ → Registry R → Registry R
  reap now r = record r { objects = map (reap_job now) r.objects }

  abbrev pub get : Text → Registry R → Option (Job R)
  get id r = find (is_mapped_as id) r.objects

  -- `_asyncJobs.size`
  abbrev pub size : Registry R → ℕ
  size r = count (λ j. j.mapped) r.objects

  unfoldable pub is_stale : Options R → Job R → Bool
  unfolding is_done
  is_stale o j =
      is_done j.status && elim o.retry_stale [ none ↦ false | some stale ↦ stale j.result ]

  abbrev pub is_same_attempt : Options R → Job R → Bool
  is_same_attempt o j =
      j.mapped
      && option_eq j.idempotency_key o.idempotency_key
      && option_eq j.idempotency_namespace o.idempotency_namespace

  -- `_asyncJobs.delete(existing.id)` takes out the entry of the object that the search found.
  unfoldable pub resolve_existing :
      Scrubber → ℕ → Options R → Registry R → Option (Job R) → Registry R × Option (Envelope R)
  unfolding is_stale update option_eq
  resolve_existing s now o r none = (r, none)
  resolve_existing s now o r (some j) =
      if not (option_eq j.fingerprint o.fingerprint)
      then (r, some (refused job_idempotency_conflict))
      else if is_stale o j
      then (update (is_same_attempt o) unmap r, none)
      else (r, some (envelope s now j))

  -- `_resolveIdempotentAsyncJob`
  unfoldable pub resolve_idempotent :
      Scrubber → ℕ → Options R → Registry R → Registry R × Option (Envelope R)
  unfolding resolve_existing
  resolve_idempotent s now o r =
      if is_some o.idempotency_key
      then resolve_existing s now o r (find (is_same_attempt o) r.objects)
      else (r, none)

  abbrev pub runs_in : Option Text → Job R → Bool
  runs_in scope j = j.mapped && is_running j.status && option_eq j.execution_scope scope

  unfoldable pub is_contended : Options R → Registry R → Bool
  unfolding is_running option_eq
  is_contended o r =
      o.single_flight && is_some o.execution_scope && any (runs_in o.execution_scope) r.objects

  unfoldable pub new_job : ℕ → ℕ → Text → Options R → Job R
  unfolding bound_kind
  new_job now seq kind o = record {
    id = job_id now seq;
    kind = bound_kind kind;
    status = running;
    started_at = now;
    finished_at = none;
    result = none;
    error = none;
    aborted = false;
    cancellable = o.cancellable;
    idempotency_key = o.idempotency_key;
    idempotency_namespace = o.idempotency_namespace;
    fingerprint = o.fingerprint;
    execution_scope = o.execution_scope;
    progress = none;
    diagnostics = none;
    waiters = [];
    mapped = true;
  }

  unfoldable pub add_job : Job R → Registry R → Registry R
  add_job j r = record r { objects = r.objects ++ j ∷ []; seq = suc r.seq }

  -- The last part of `startAsyncJob`: contention, capacity, and the new job.
  unfoldable pub start_new : Scrubber → ℕ → Text → Options R → Registry R → Registry R × Envelope R
  unfolding is_contended new_job add_job
  start_new s now kind o r =
      let j = new_job now (suc r.seq) kind o in
      if is_contended o r
      then (r, refused job_execution_contended)
      else if leb r.capacity (size r)
      then (r, refused job_capacity_exhausted)
      else (add_job j r, envelope s now j)

  unfoldable pub start_resolved :
      Scrubber → ℕ → Text → Options R → Registry R × Option (Envelope R) → Registry R × Envelope R
  start_resolved s now kind o (r, none) = start_new s now kind o r
  start_resolved s now kind o (r, some reply) = (r, reply)

  unfoldable pub start_checked :
      Scrubber → ℕ → Text → Options R → Registry R → Option Refusal → Registry R × Envelope R
  unfolding start_resolved
  start_checked s now kind o r (some e) = (r, refused e)
  start_checked s now kind o r none =
      start_resolved s now kind o (resolve_idempotent s now o (reap now r))

  -- `startAsyncJob`
  unfoldable pub start : Scrubber → ℕ → Text → Options R → Registry R → Registry R × Envelope R
  unfolding start_checked
  start s now kind o r = start_checked s now kind o r (validate o)

  unfoldable pub reply_to_poll : Scrubber → ℕ → Option (Job R) → Envelope R
  reply_to_poll s now none = refused job_not_found
  reply_to_poll s now (some j) = envelope s now j

  -- `pollAsyncJob`
  unfoldable pub poll : Scrubber → ℕ → Text → Registry R → Registry R × Envelope R
  unfolding reply_to_poll
  poll s now id r =
      let r' = reap now r in
      (r', if is_handle id then reply_to_poll s now (get id r') else refused job_not_found)

  abbrev pub abort : Job R → Job R
  abort j = record j { aborted = true }

  unfoldable pub cancel_found : Text → Registry R → Option (Job R) → Registry R × Envelope R
  unfolding update is_running
  cancel_found id r none = (r, refused job_not_found)
  cancel_found id r (some j) =
      if not (is_running j.status)
      then (r, terminal_job j.id j.kind j.status)
      else if not j.cancellable
      then (r, job_not_cancellable j.id j.kind)
      else (update (is_mapped_as id) abort r, cancelling_job j.id j.kind)

  -- `cancelAsyncJob`
  unfoldable pub cancel : ℕ → Text → Registry R → Registry R × Envelope R
  unfolding cancel_found
  cancel now id r =
      let r' = reap now r in
      if is_handle id then cancel_found id r' (get id r') else (r', refused job_not_found)

  -- `reportProgress`
  unfoldable pub report : Text → Option Snapshot → Registry R → Registry R
  unfolding update bound_progress
  report id snapshot = update (is_object id) (λ j. record j { progress = bound_progress snapshot })
