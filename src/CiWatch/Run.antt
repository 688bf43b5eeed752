-- ===== src/CiWatch/Run.antt =====
-- One CI run as the watcher sees it: the poll decision of mcp/ground-control/lib/doc-coverage.js and
-- the aggregation of mcp/ground-control/lib/ci-watcher.js.
use ground_control.Prelude.{
  ℕ, ◌-◌, ◌/◌, Bool, true, false, not, ◌&&◌, ◌||◌, Option, none, some, List, [], ◌∷◌, if◌then◌else◌,
  ltb, any, find, filter,
}
use ground_control.Prelude.Text.{Text, text_eq}

pub data RunStatus : Type 0 where
  queued pending waiting in_progress completed : RunStatus
  other_status : RunStatus

-- A conclusion that GitHub reports; a run or a job that has none yet has `none` for it.
pub data Conclusion : Type 0 where
  success failure cancelled timed_out action_required startup_failure : Conclusion
  skipped neutral stale : Conclusion
  other_conclusion : Text → Conclusion

pub record RunJob : Type 0 where
  pub status : RunStatus
  pub conclusion : Option Conclusion

-- The timestamps are those that `ciTimestampMs` accepts, in milliseconds.
pub record Snapshot : Type 0 where
  pub status : RunStatus
  pub conclusion : Option Conclusion
  pub head_sha : Option Text
  pub jobs : List RunJob
  pub started_at : Option ℕ
  pub created_at : Option ℕ

-- `CI_QUEUED_STATUSES.has`
unfoldable pub is_queued : RunStatus → Bool
is_queued queued = true
is_queued pending = true
is_queued waiting = true
is_queued _ = false

unfoldable pub is_completed : RunStatus → Bool
is_completed completed = true
is_completed _ = false

unfoldable pub is_in_progress : RunStatus → Bool
is_in_progress in_progress = true
is_in_progress _ = false

unfoldable pub is_skipped : Option Conclusion → Bool
is_skipped (some skipped) = true
is_skipped _ = false

unfoldable pub is_success : Option Conclusion → Bool
is_success (some success) = true
is_success _ = false

unfoldable pub is_failure : Option Conclusion → Bool
is_failure (some failure) = true
is_failure _ = false

-- The conclusions of a run that end the watch at once.
unfoldable pub is_failed_run : Option Conclusion → Bool
is_failed_run (some failure) = true
is_failed_run (some cancelled) = true
is_failed_run (some timed_out) = true
is_failed_run (some action_required) = true
is_failed_run (some startup_failure) = true
is_failed_run _ = false

-- The conclusions of a job that do.
unfoldable pub is_failed_job : Option Conclusion → Bool
is_failed_job (some failure) = true
is_failed_job (some timed_out) = true
is_failed_job (some cancelled) = true
is_failed_job _ = false

-- `ciRunHasStartedJob`
unfoldable pub has_started_job : Snapshot → Bool
unfolding is_in_progress is_completed is_skipped
has_started_job s =
    any (λ j. is_in_progress j.status || (is_completed j.status && not (is_skipped j.conclusion)))
      s.jobs

-- `a ?? b ?? first`
unfoldable pub first_of_three : Option ℕ → Option ℕ → ℕ → ℕ
first_of_three (some t) b first = t
first_of_three none (some t) first = t
first_of_three none none first = first

-- `ciRunQueuedSeconds`: `-` stops at 0 as the `Math.max` does.
unfoldable pub queued_seconds : Snapshot → ℕ → ℕ → Option ℕ
unfolding is_queued has_started_job first_of_three
queued_seconds s now first =
    if not (is_queued s.status) || has_started_job s
    then none
    else some ((now - first_of_three s.started_at s.created_at first) / 1000)

pub data PollAction : Type 0 where
  complete queued_too_long watch_timed_out continue : PollAction

unfoldable pub exceeds : Option ℕ → ℕ → Bool
exceeds none limit = false
exceeds (some n) limit = ltb limit n

-- `evaluateCiPollState`
unfoldable pub evaluate_poll :
    RunStatus → (elapsed : ℕ) → Option ℕ → (queued_timeout total_timeout : ℕ) → PollAction
unfolding is_completed is_queued exceeds
evaluate_poll status elapsed waited queued_timeout total_timeout =
    if is_completed status
    then complete
    else if is_queued status && exceeds waited queued_timeout
    then queued_too_long
    else if ltb total_timeout elapsed
    then watch_timed_out
    else continue

pub record Observed : Type 0 where
  pub id : ℕ
  pub snapshot : Snapshot

-- The run that `aggregateCiRunOutcomes` holds responsible: the first that failed, else the first
-- that did not succeed.
unfoldable pub responsible : List Observed → Option Observed
unfolding is_success is_failure
responsible observed =
    let rest = filter (λ o. not (is_success o.snapshot.conclusion)) observed in
    elim (find (λ o. is_failure o.snapshot.conclusion) rest) [
      | some o ↦ some o
      | none ↦ find (λ _. true) rest
    ]

-- `selectCiRunsForHeadSha`
pub record ListedRun : Type 0 where
  pub head_sha : Option Text
  pub database_id : Option ℕ

unfoldable pub has_head : Text → Option Text → Bool
unfolding text_eq
has_head sha none = false
has_head sha (some s) = text_eq s sha

unfoldable pub select_runs : List ListedRun → Text → List ListedRun
unfolding has_head
select_runs runs sha = filter (λ r. has_head sha r.head_sha) runs

-- The `databaseId`s of the runs that have one.
unfoldable pub database_ids : List ListedRun → List ℕ
database_ids [] = []
database_ids (r ∷ rs) = elim r.database_id [
  | none ↦ database_ids rs
  | some id ↦ id ∷ database_ids rs
]
