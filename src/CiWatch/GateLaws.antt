-- ===== src/CiWatch/GateLaws.antt =====
-- When the remote gates of mcp/ground-control/lib/remote-gates.js and
use ground_control.CiWatch.Gates.{
  has_passed_check, evaluate_remote_checks, sonar_gate_passed, has_failed_check, Required, Check,
  classify_sonar_gate_failure, sonar_gate_evaluable, unread, next_action_by_error, error_of,
  provides, Sonar, findings_open, fix_sonar_findings_then_rerun_publish_and_monitor,
}
use ground_control.Prelude.{
  all, refl, inl, inr, Bool-cases, List, Bool, length, ◌≡◌, ◌&&◌, filter, true, not, ◌↔◌, any, ◌==◌,
  ◌<◌, All, Option, arith, ◌∷◌, false, [], some, none,
}

-- mcp/ground-control/lib/sonar-gate.js let a change through.

-- A check that passed and did not fail.
unfoldable pub is_clear : Check → Bool
unfolding has_passed_check has_failed_check
is_clear k = has_passed_check k && not (has_failed_check k)

no_missing :
    (required : List Required) (checks : List Check)
    → ((length (filter (λ q. not (any (provides q) checks)) required) == 0) ≡ true)
      ↔ All (λ q. any (provides q) checks ≡ true) required
no_missing [] checks = ground arith
no_missing (q ∷ qs) checks = ground (arith, no_missing qs checks)

clear_lem :
    (p f : Check → Bool) (checks : List Check)
    → ((length (filter (λ k. not (p k) && not (f k)) checks) == 0)
        && (length (filter f checks) == 0))
      ≡ all (λ k. p k && not (f k)) checks
clear_lem p f [] = refl
clear_lem p f (k ∷ ks) = elim (Bool-cases (f k)) [
  | inl fails ↦ rw fails (ground arith)
  | inr fine ↦ elim (Bool-cases (p k)) [
    | inl ok ↦ rw (fine, ok) (clear_lem p f ks)
    | inr waits ↦ rw (fine, waits) (ground arith)
  ]
]

all_iff : (p : Check → Bool) (ks : List Check) → (all p ks ≡ true) ↔ All (λ k. p k ≡ true) ks
all_iff p [] = ground arith
all_iff p (k ∷ ks) = ground (arith, all_iff p ks)

-- The gate of the remote checks passes exactly when something is required, some check provides each
-- required context, and every check that is there has passed without a failure.
pub remote_passed_iff :
    (checks : List Check) (required : List Required)
    → ((evaluate_remote_checks checks required).passed ≡ true) ↔ (
        (0 < length required)
        × All (λ q. any (provides q) checks ≡ true) required
        × All (λ k. is_clear k ≡ true) checks)
unfolding evaluate_remote_checks is_clear
remote_passed_iff checks required = ground (
  arith,
  no_missing required checks,
  clear_lem has_passed_check has_failed_check checks,
  all_iff is_clear checks,
)

-- A failure of the SonarCloud gate is put down to findings in the code exactly when the gate was
-- evaluated; otherwise the driver is never told to fix findings.
pub sonar_findings_iff :
    (s : Option Sonar)
    → sonar_gate_passed s ≡ false
    → (((classify_sonar_gate_failure s).sonar_gate ≡ findings_open)
        ↔ (sonar_gate_evaluable s ≡ true))
      × (((classify_sonar_gate_failure s).next_action
            ≡ fix_sonar_findings_then_rerun_publish_and_monitor)
          ↔ (sonar_gate_evaluable s ≡ true))
unfolding sonar_gate_passed classify_sonar_gate_failure sonar_gate_evaluable unread
    next_action_by_error error_of
sonar_findings_iff none h = ground arith
sonar_findings_iff (some s) h = ground arith
