-- ===== src/Review/Examples.antt =====
-- The theorems on the review gates at concrete inputs.
use Prim.Native.Nat.{max}
use ground_control.Review.Budget.{
  Request, is_granted, run_requests, evaluate, prepush_review, postpush_review, is_authorized,
  granted_iff, run_requests-le, HasReason,
}
use ground_control.Review.Reattempt.{Station, Outcome, reply, run_station, clamp_retry_limit}
use ground_control.Review.Gate.{
  PostpushInput, PrepushInput, enforce_postpush_review_gate, enforce_prepush_review_cap, configured,
  plan, resolved_branch, effective_issue,
}
use ground_control.Review.Passage.{
  is_owned, cycle_of, is_planned, rename_branch, request_of, postpush_iff,
}
use ground_control.Prelude.{
  ◌+◌, ◌≤◌, true, false, none, some, ◌∷◌, ◌≡◌, ◌↔◌, [], ◌≤◌, ◌<◌, suc, if◌then◌else◌, ◌⊎◌, ◌==◌,
  zero, refl, count,
}
use ground_control.Prelude.Text.{codes}
use ground_control.Review.Retrying.{Ends, run_station-Ends}
use ground_control.Review.Markers.{count_markers, post_marker}

abbrev authorized : Request
authorized = record { override_cap = true; override_reason = some (codes "the user agreed") }

abbrev ordinary : Request
ordinary = record { override_cap = false; override_reason = none }

granted_iff_example : (is_granted (evaluate postpush_review (some 3) 3 authorized) ≡ true) ↔ (
    ((authorized.override_cap ≡ false) × (3 < 3))
    ⊎ ((authorized.override_cap ≡ true) × HasReason authorized))
granted_iff_example = granted_iff postpush_review 3 3 authorized

run_requests-le_example :
    run_requests prepush_review 1 0 (ordinary ∷ ordinary ∷ authorized ∷ [])
    ≤ max 0 1 + count is_authorized (ordinary ∷ ordinary ∷ authorized ∷ [])
run_requests-le_example = run_requests-le prepush_review 1 0 (ordinary ∷ ordinary ∷ authorized ∷ [])

-- The first attempt lacks coverage, the second has a verdict.
abbrev flaky : Station
flaky zero = (reply false (some (codes "review_coverage_incomplete")) none, false)
flaky (suc zero) = (reply false (some (codes "review_coverage_incomplete")) none, false)
flaky (suc (suc n)) = (reply true none (some 0), false)

run_station-Ends_example :
    (o : Outcome) × (run_station flaky (some 2) ≡ some o)
    × (o.last_ordinal ≤ suc (clamp_retry_limit (some 2)))
    × (clamp_retry_limit (some 2) ≤ 2)
    × Ends flaky (some 2) 1 [] o
run_station-Ends_example = run_station-Ends flaky (some 2)

abbrev pull_request : PostpushInput
pull_request = record {
  pr_number = 9;
  closing_issues = 4 ∷ 5 ∷ [];
  phases = (λ n. if n == 5 then plan ∷ [] else []);
  prior_count = some 2;
  override_cap = false;
  override_reason = none;
  override_phase_gate = false;
  override_phase_reason = none;
}

postpush_iff_example : (is_owned (enforce_postpush_review_gate pull_request) ≡ true) ↔ (
    (is_planned pull_request ≡ true)
    × (((pull_request.override_cap ≡ false) × (2 < 3))
        ⊎ (is_authorized (request_of pull_request) ≡ true)))
postpush_iff_example = postpush_iff pull_request 2 refl

abbrev working_tree : PrepushInput
working_tree = record {
  branch = none;
  issue_number = none;
  thread = (λ n. some ((record { issue = n; branch = some (codes "796"); cycle = 1 } ∷ []) ∷ []));
  cap = configured 2;
  override_cap = false;
  override_reason = none;
}

rename_branch_example :
    (cycle_of (enforce_prepush_review_cap (record working_tree { branch = some (codes "796-cap") }))
      ≡ some 2)
    × (cycle_of (
          enforce_prepush_review_cap (record working_tree {
            branch = some (codes "796");
            thread = post_marker working_tree.thread 796 (codes "796-cap") 2;
          }))
        ≡ none)
unfolding resolved_branch effective_issue count_markers
rename_branch_example =
    rename_branch working_tree (codes "796-cap") (codes "796") 796 2
      ((record { issue = 796; branch = some (codes "796"); cycle = 1 } ∷ []) ∷ []) refl refl refl
      refl refl refl refl
