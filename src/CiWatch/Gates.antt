-- ===== src/CiWatch/Gates.antt =====
-- The remote gates that follow CI: `evaluateRemoteChecks` of mcp/ground-control/lib/remote-gates.js
use ground_control.Prelude.Text.{Text, option_eq}
use ground_control.Prelude.{
  Bool, Option, List, ℕ, some, if◌then◌else◌, filter, false, true, ◌&&◌, not, ◌==◌, none, any, ltb,
  length,
}
use ground_control.Prelude.Int.{ℤ, negsuc, pos}

-- and the SonarCloud gate of mcp/ground-control/lib/sonar-gate.js.

-- The values of `conclusion` and `state`.
pub data CheckState : Type 0 where
  success neutral skipped : CheckState
  failure error cancelled timed_out action_required startup_failure : CheckState
  other_state : Text → CheckState

-- One row of the rollup; `app_id` is `appId`.
pub record Check : Type 0 where
  pub is_status_context : Bool
  pub is_completed : Bool
  pub conclusion : Option CheckState
  pub state : Option CheckState
  pub name : Option Text
  pub context : Option Text
  pub app_id : Option ℕ

pub record Required : Type 0 where
  pub context : Text
  pub app_id : Option ℤ

-- `a ?? b`
unfoldable pub or_option {ℓ} : {A : Type ℓ} → Option A → Option A → Option A
or_option (some a) b = some a
or_option none b = b

unfoldable pub is_failing : Option CheckState → Bool
is_failing (some failure) = true
is_failing (some error) = true
is_failing (some cancelled) = true
is_failing (some timed_out) = true
is_failing (some action_required) = true
is_failing (some startup_failure) = true
is_failing _ = false

unfoldable pub has_failed_check : Check → Bool
unfolding or_option is_failing
has_failed_check k = is_failing (or_option k.conclusion k.state)

unfoldable pub is_successful : Option CheckState → Bool
is_successful (some success) = true
is_successful _ = false

unfoldable pub is_accepted : Option CheckState → Bool
is_accepted (some success) = true
is_accepted (some neutral) = true
is_accepted (some skipped) = true
is_accepted _ = false

unfoldable pub has_passed_check : Check → Bool
unfolding is_successful is_accepted
has_passed_check k =
    if k.is_status_context
    then is_successful k.state
    else k.is_completed && is_accepted k.conclusion

-- `app_id == null || app_id === -1 || check.appId === app_id`
unfoldable pub is_app : Option ℤ → Option ℕ → Bool
is_app none app = true
is_app (some (negsuc n)) app = n == 0
is_app (some (pos n)) none = false
is_app (some (pos n)) (some m) = m == n

unfoldable pub provides : Required → Check → Bool
unfolding or_option is_app option_eq
provides q k = option_eq (or_option k.name k.context) (some q.context) && is_app q.app_id k.app_id

pub record RemoteGate : Type 0 where
  pub passed : Bool
  pub failures : List Check
  pub pending : List Check
  pub missing : List Required

unfoldable pub evaluate_remote_checks : List Check → List Required → RemoteGate
unfolding has_failed_check has_passed_check provides
evaluate_remote_checks checks required =
    let failures = filter has_failed_check checks in
    let missing = filter (λ q. not (any (provides q) checks)) required in
    let pending = filter (λ k. not (has_passed_check k) && not (has_failed_check k)) checks in
    record {
      passed =
          ltb 0 (length required)
          && (length missing == 0)
          && (length pending == 0)
          && (length failures == 0);
      failures = failures;
      pending = pending;
      missing = missing;
    }

-- The errors of the watcher that have a repair of their own, and the others.
pub data SonarError : Type 0 where
  sonar_watch_token_missing sonar_watch_authentication_failed : SonarError
  sonar_watch_config_invalid sonar_watch_analysis_not_produced : SonarError
  sonar_watch_analysis_timed_out sonar_findings_open sonar_watch_unavailable : SonarError
  other_error : Text → SonarError

-- The envelope of the watcher; `quality_gate_ok` is `quality_gate === "OK"`.
pub record Sonar : Type 0 where
  pub ok : Bool
  pub skipped : Bool
  pub timed_out : Bool
  pub quality_gate_ok : Bool
  pub open_issues : Option ℕ
  pub open_hotspots : Option ℕ
  pub error : Option SonarError

pub data SonarAction : Type 0 where
  provision_sonar_token_on_mcp_host_then_rerun_monitor : SonarAction
  repair_sonar_credential_then_rerun_monitor : SonarAction
  repair_ground_control_config_then_rerun_monitor : SonarAction
  diagnose_sonar_scan_scope_then_rerun_monitor : SonarAction
  diagnose_sonar_watch_failure_then_rerun_monitor : SonarAction
  rerun_monitor_after_sonar_analysis_completes : SonarAction
  fix_sonar_findings_then_rerun_publish_and_monitor : SonarAction

-- `NEXT_ACTION_BY_ERROR`, with the action of an error that it does not hold.
unfoldable pub next_action_by_error : SonarError → SonarAction
next_action_by_error sonar_watch_token_missing =
    provision_sonar_token_on_mcp_host_then_rerun_monitor
next_action_by_error sonar_watch_authentication_failed = repair_sonar_credential_then_rerun_monitor
next_action_by_error sonar_watch_config_invalid = repair_ground_control_config_then_rerun_monitor
next_action_by_error sonar_watch_analysis_not_produced =
    diagnose_sonar_scan_scope_then_rerun_monitor
next_action_by_error _ = diagnose_sonar_watch_failure_then_rerun_monitor

unfoldable pub sonar_gate_evaluable : Option Sonar → Bool
sonar_gate_evaluable none = false
sonar_gate_evaluable (some s) =
    if not s.ok then false else if s.skipped then true else not s.timed_out

-- `n === 0`
unfoldable pub is_zero : Option ℕ → Bool
is_zero none = false
is_zero (some n) = n == 0

unfoldable pub sonar_gate_passed : Option Sonar → Bool
unfolding sonar_gate_evaluable is_zero
sonar_gate_passed none = false
sonar_gate_passed (some s) =
    if not (sonar_gate_evaluable (some s))
    then false
    else if s.skipped
    then true
    else s.quality_gate_ok && is_zero s.open_issues && is_zero s.open_hotspots

pub data SonarGate : Type 0 where
  not_evaluable findings_open : SonarGate

pub record SonarFailure : Type 0 where
  pub sonar_gate : SonarGate
  pub error : SonarError
  pub next_action : SonarAction

unfoldable pub error_of : Option SonarError → SonarError
error_of none = sonar_watch_unavailable
error_of (some e) = e

unfoldable pub unread : SonarError → SonarFailure
unfolding next_action_by_error
unread e = record { sonar_gate = not_evaluable; error = e; next_action = next_action_by_error e }

unfoldable pub classify_sonar_gate_failure : Option Sonar → SonarFailure
unfolding error_of unread
classify_sonar_gate_failure none = unread sonar_watch_unavailable
classify_sonar_gate_failure (some s) =
    if s.ok && s.timed_out
    then record {
      sonar_gate = not_evaluable;
      error = sonar_watch_analysis_timed_out;
      next_action = rerun_monitor_after_sonar_analysis_completes;
    }
    else if not s.ok
    then unread (error_of s.error)
    else record {
      sonar_gate = findings_open;
      error = sonar_findings_open;
      next_action = fix_sonar_findings_then_rerun_publish_and_monitor;
    }
