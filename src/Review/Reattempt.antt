-- ===== src/Review/Reattempt.antt =====
-- mcp/ground-control/lib/review-reattempt.js: one review station with its bounded re-attempts.
use ground_control.Prelude.{
  ℕ, zero, suc, ◌+◌, Bool, true, false, Option, none, some, List, [], ◌∷◌, ◌++◌, if◌then◌else◌, ltb,
}
use ground_control.Prelude.Text.{Text, codes, text_eq}

-- What an attempt returns: a value that is no object, or an object with `ok`, `error` and
-- `finding_count`, the last two `none` where they are no text and no integer; `finding_count` is 0
-- too where it is negative.
pub data Reply : Type 0 where
  unreadable : Reply
  reply : (ok : Bool) (error : Option Text) (finding_count : Option ℕ) → Reply

pub data FailureClass : Type 0 where
  cancelled_class unreadable_envelope incomplete_reviewer_coverage : FailureClass
  other_class : Text → FailureClass

pub record Classification : Type 0 where
  pub evaluable : Bool
  pub retryable : Bool
  pub failure_class : Option FailureClass

-- `NON_VERDICT_FAILURE_CLASSES`, at a text that is no name of a property of every JavaScript object.
unfoldable pub non_verdict_class : Text → Option FailureClass
unfolding text_eq
non_verdict_class e =
    if text_eq e (codes "review_coverage_incomplete")
    then some incomplete_reviewer_coverage
    else none

unfoldable pub classify_error : Text → Option FailureClass → Classification
classify_error e none = record {
  evaluable = false;
  retryable = false;
  failure_class = some (other_class e);
}
classify_error e (some c) = record { evaluable = false; retryable = true; failure_class = some c }

-- `classifyStationAttempt` on an attempt that was not cancelled.
unfoldable pub classify_reply : Reply → Classification
unfolding non_verdict_class classify_error
classify_reply unreadable = record {
  evaluable = false;
  retryable = false;
  failure_class = some unreadable_envelope;
}
classify_reply (reply true error findings) = record {
  evaluable = true;
  retryable = false;
  failure_class = none;
}
classify_reply (reply false none findings) = record {
  evaluable = false;
  retryable = false;
  failure_class = some unreadable_envelope;
}
classify_reply (reply false (some e) findings) = classify_error e (non_verdict_class e)

-- `classifyStationAttempt`
unfoldable pub classify : Bool → Reply → Classification
unfolding classify_reply
classify true r = record {
  evaluable = false;
  retryable = false;
  failure_class = some cancelled_class;
}
classify false r = classify_reply r

pub data StationResult : Type 0 where
  pass fail cancelled not_evaluable : StationResult

unfoldable pub has_findings : Reply → Bool
has_findings (reply ok error (some n)) = ltb 0 n
has_findings _ = false

-- `failure_class === "cancelled"`: an envelope can name that class itself.
unfoldable pub is_cancelled : Option FailureClass → Bool
unfolding text_eq
is_cancelled (some cancelled_class) = true
is_cancelled (some (other_class e)) = text_eq e (codes "cancelled")
is_cancelled _ = false

-- `stationResultForAttempt`
unfoldable pub station_result : Classification → Reply → Option StationResult
unfolding has_findings is_cancelled
station_result c r =
    if c.evaluable
    then some (if has_findings r then fail else pass)
    else if is_cancelled c.failure_class
    then some cancelled
    else if c.retryable
    then some not_evaluable
    else none

-- `clampRetryLimit`: `none` is a value that is no integer, and a negative one is 0 already.
unfoldable pub clamp_retry_limit : Option ℕ → ℕ
clamp_retry_limit none = 1
clamp_retry_limit (some n) = if ltb 2 n then 2 else n

-- `resolveNonVerdictRetryLimit`; `none` is a limit that is not configured.
unfoldable pub resolve_retry_limit : Option (Option ℕ) → ℕ
unfolding clamp_retry_limit
resolve_retry_limit none = 1
resolve_retry_limit (some configured) = clamp_retry_limit configured

pub data Retry : Type 0 where
  retry_at : (next_attempt_ordinal : ℕ) → Retry
  not_retryable reattempts_exhausted : Retry

-- `decideNonVerdictRetry`
unfoldable pub decide_retry : (ordinal : ℕ) (max_reattempts : Option ℕ) → Classification → Retry
unfolding clamp_retry_limit
decide_retry ordinal max c =
    if c.retryable
    then (if ltb (clamp_retry_limit max) ordinal
        then reattempts_exhausted
        else retry_at (ordinal + 1))
    else not_retryable

pub record Attempt : Type 0 where
  pub attempt_ordinal : ℕ
  pub result : StationResult
  pub failure_class : Option FailureClass

pub record Outcome : Type 0 where
  pub envelope : Reply
  pub observed : Bool
  pub attempts : List Attempt
  pub last_ordinal : ℕ

-- What the station and the signal answer at each attempt: the reply, and whether the run was
-- cancelled by then. An attempt that throws, which ends the loop with its exception, is left out.
abbrev pub Station : Type 0
Station = ℕ → Reply × Bool

unfoldable pub recorded : ℕ → Classification → Option StationResult → List Attempt
recorded ordinal c none = []
recorded ordinal c (some result) =
    record { attempt_ordinal = ordinal; result = result; failure_class = c.failure_class } ∷ []

-- The loop of `runStationWithNonVerdictRetry`, with fuel; `none` means that the fuel ran out.
unfoldable pub run_from : ℕ → Station → Option ℕ → ℕ → List Attempt → Option Outcome
run_from zero station max ordinal attempts = none
run_from (suc fuel) station max ordinal attempts =
    let answer = station ordinal in
    let c = classify answer.1 answer.0 in
    let attempts' = attempts ++ recorded ordinal c (station_result c answer.0) in
    elim (decide_retry ordinal max c) [
      | retry_at next ↦ run_from fuel station max next attempts'
      | _ ↦ some (record {
        envelope = answer.0;
        observed = c.evaluable;
        attempts = attempts';
        last_ordinal = ordinal;
      })
    ]

-- `runStationWithNonVerdictRetry`: three rounds of the loop are enough.
unfoldable pub run_station : Station → Option ℕ → Option Outcome
unfolding run_from
run_station station max = run_from 3 station max 1 []
