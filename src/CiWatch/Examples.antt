-- ===== src/CiWatch/Examples.antt =====
-- The theorems on the watch of CI and on the remote gates at concrete inputs.
use ground_control.CiWatch.Watch.{Settings, Loop, Verdict, watch, Tick, elapsed_seconds}
use ground_control.CiWatch.Run.{
  Snapshot, completed, success, in_progress, ListedRun, Observed, database_ids, select_runs,
  evaluate_poll, responsible,
}
use ground_control.CiWatch.Verdict.{IsGreenWatch, watch-green}
use ground_control.CiWatch.Gates.{
  CheckState, Check, Required, evaluate_remote_checks, Sonar, classify_sonar_gate_failure,
  sonar_watch_token_missing, findings_open, sonar_gate_evaluable,
  fix_sonar_findings_then_rerun_publish_and_monitor, provides, sonar_gate_passed,
}
use ground_control.Prelude.{
  some, ℕ, List, false, none, ◌∷◌, ◌≡◌, true, [], refl, suc, arith, ◌↔◌, ◌<◌, zero, length, All,
  any, is_some,
}
use ground_control.Prelude.Text.{codes, Text}
use ground_control.Prelude.Int.{pos}
use ground_control.CiWatch.Termination.{watch_ends}
use ground_control.CiWatch.GateLaws.{sonar_findings_iff, is_clear, remote_passed_iff}
use ground_control.CiWatch.Start.{
  WatchRequest, WatchHost, deadline_of, start_watch, settings_of, first_loop,
}
use ground_control.CiWatch.Registration.{IsStarted, start_watch_ends, start_watch-IsStarted}

abbrev settings : Settings
settings = record {
  start_ms = 0;
  deadline_ms = 1000;
  queued_timeout = 60;
  total_timeout = 600;
  head = some (codes "abc");
}

abbrev green_run : Snapshot
green_run = record {
  status = completed;
  conclusion = some success;
  head_sha = some (codes "abc");
  jobs = [];
  started_at = none;
  created_at = none;
}

abbrev waiting_run : Snapshot
waiting_run = record green_run { status = in_progress; conclusion = none }

abbrev listed_run : ListedRun
listed_run = record { head_sha = some (codes "abc"); database_id = some 7 }

-- One round before the deadline, then rounds past it, in which the run has completed or goes on.
abbrev ticks_of : Snapshot → ℕ → Tick
ticks_of s zero = record {
  before_ms = 10;
  listed = some (listed_run ∷ []);
  snapshot = (λ n. some waiting_run);
  after_ms = 20;
}
ticks_of s (suc n) = record {
  before_ms = 900000;
  listed = some (listed_run ∷ []);
  snapshot = (λ n. some s);
  after_ms = 900010;
}

abbrev at_first : Loop
at_first = record { watched = 7 ∷ []; first_queued = []; discovery_closed = false }

abbrev seen : List Observed
seen = record { id = 7; snapshot = green_run } ∷ []

watch-green_example : IsGreenWatch settings at_first (ticks_of green_run) 0 seen
unfolding watch database_ids select_runs evaluate_poll responsible
watch-green_example = watch-green 2 settings at_first (ticks_of green_run) 0 seen refl

watch_ends_example : (v : Verdict) × (watch 2 settings at_first (ticks_of waiting_run) 0 ≡ some v)
unfolding elapsed_seconds
watch_ends_example =
    watch_ends 1 2 settings at_first (ticks_of waiting_run) 0 (omega arith)
      (record { listed_late = omega arith; out_of_total = omega arith })

abbrev build : Check
build = record {
  is_status_context = false;
  is_completed = true;
  conclusion = some CheckState.success;
  state = none;
  name = some (codes "build");
  context = none;
  app_id = some 15368;
}

abbrev required_build : Required
required_build = record { context = codes "build"; app_id = some (pos 15368) }

remote_passed_iff_example :
    ((evaluate_remote_checks (build ∷ []) (required_build ∷ [])).passed ≡ true) ↔ (
      (0 < length (required_build ∷ []))
      × All (λ q. any (provides q) (build ∷ []) ≡ true) (required_build ∷ [])
      × All (λ k. is_clear k ≡ true) (build ∷ []))
remote_passed_iff_example = remote_passed_iff (build ∷ []) (required_build ∷ [])

abbrev unread_scan : Sonar
unread_scan = record {
  ok = false;
  skipped = false;
  timed_out = false;
  quality_gate_ok = false;
  open_issues = none;
  open_hotspots = none;
  error = some sonar_watch_token_missing;
}

sonar_findings_iff_example :
    (((classify_sonar_gate_failure (some unread_scan)).sonar_gate ≡ findings_open)
      ↔ (sonar_gate_evaluable (some unread_scan) ≡ true))
    × (((classify_sonar_gate_failure (some unread_scan)).next_action
          ≡ fix_sonar_findings_then_rerun_publish_and_monitor)
        ↔ (sonar_gate_evaluable (some unread_scan) ≡ true))
unfolding sonar_gate_passed
sonar_findings_iff_example = sonar_findings_iff (some unread_scan) refl

abbrev head_commit : Text
head_commit = codes "0123456789abcdef0123456789abcdef01234567"

abbrev watch_request : WatchRequest
watch_request = record {
  repo_path = some (codes "/repo");
  branch = some (codes "main");
  run_id = none;
  expected_head_sha = none;
  queued_timeout = some 300;
  total_timeout = some 2700;
  poll_interval = some 15;
  registration_timeout = some 300;
}

abbrev watch_host : WatchHost
watch_host = record {
  is_repository = true;
  is_authorized = true;
  start_ms = 0;
  branch_head = some head_commit;
  listing = (λ n. some (record { head_sha = some head_commit; database_id = some 7 } ∷ []));
  clock = (λ n. 300000);
}

start_watch_ends_example : is_some (start_watch 1 watch_request watch_host) ≡ true
unfolding deadline_of
start_watch_ends_example = start_watch_ends 0 1 watch_request watch_host (omega arith) (omega arith)

start_watch-IsStarted_example :
    IsStarted watch_request watch_host
      (settings_of watch_request 0 (some head_commit))
      (first_loop (7 ∷ []) false)
unfolding start_watch
start_watch-IsStarted_example =
    start_watch-IsStarted 1 watch_request watch_host
      (settings_of watch_request 0 (some head_commit)) (first_loop (7 ∷ []) false) refl
