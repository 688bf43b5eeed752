-- ===== src/Review/Gate.antt =====
-- The gates that decide whether a review may run: mcp/ground-control/lib/codex-review-cap.js, with
use ground_control.Prelude.{
  ℕ, Bool, Option, none, leb, true, if◌then◌else◌, some, false, List, ◌&&◌, ◌∷◌, ltb, any, not,
  ◌==◌, ◌*◌, [], length, ◌+◌, ◌-◌,
}
use ground_control.Prelude.Text.{Text, text_eq, is_blank, codes}
use ground_control.Review.Cap.{
  evaluate_prepush_cap, evaluate_review_cap, CapError, NextAction, Decision, granted,
  codex_review_hard_cap, refused, throws,
}
use ground_control.Review.Markers.{Thread, count_markers}

-- `deriveIssueNumberFromBranch` of mcp/ground-control/lib/api-requirements.js.

unfoldable pub is_digit : ℕ → Bool
is_digit c = leb b'0' c && leb c b'9'

-- A name after its digits: the pattern goes on with a dash or ends there.
unfoldable pub ends_prefix : Text → Bool
ends_prefix [] = true
ends_prefix (c ∷ s) = c == b'-'

-- The number of the digits at the head of a name, if at least one was read (`seen`). It is exact;
-- an issue number is far below the 2^53 from which the source rounds.
unfoldable pub read_digits : Bool → ℕ → Text → Option ℕ
unfolding ends_prefix is_digit
read_digits seen n [] = if seen then some n else none
read_digits seen n (c ∷ s) =
    let rest = read_digits true (10 * n + (c - b'0')) s in
    if is_digit c then rest else if seen && ends_prefix (c ∷ s) then some n else none

-- A positive number, or none.
unfoldable pub positive : Option ℕ → Option ℕ
positive none = none
positive (some n) = if ltb 0 n then some n else none

unfoldable pub derive_issue_number_from_branch : Text → Option ℕ
unfolding read_digits positive
derive_issue_number_from_branch branch = positive (read_digits false 0 branch)

-- What reading the configured cap gives: a cap, `ReviewerCapConfigError`, or another exception.
pub data CapReading : Type 0 where
  configured : (cap : ℕ) → CapReading
  config_invalid : CapReading
  unreadable : CapReading

-- What a gate before the push takes and reads; `issue_number` is none for a value that is not a
-- natural number.
pub record PrepushInput : Type 0 where
  pub branch : Option Text
  pub issue_number : Option ℕ
  pub thread : Thread
  pub cap : CapReading
  pub override_cap : Bool
  pub override_reason : Option Text

pub data GateRefusal : Type 0 where
  prepush_branch_unresolved : GateRefusal
  prepush_issue_unresolved : (branch : Text) → GateRefusal
  reviewer_cap_config_invalid : (issue : ℕ) (branch : Text) → GateRefusal
  cap_refusal :
      (error : CapError) (prior_cycles cap : ℕ) (next_action : Option NextAction) → GateRefusal
  phase_prerequisite_missing :
      (closing_issues : List ℕ) (issues_checked : List (ℕ × List Text)) → GateRefusal
  phase_override_missing_reason : GateRefusal

-- The record that a run is anchored to; before the push `key` is the issue, after it the pull
-- request. `override` is that `override_reason` is there.
pub record Ownership : Type 0 where
  pub key : ℕ
  pub branch_name : Option Text
  pub cycle_number : ℕ
  pub cap : ℕ
  pub next_action : NextAction
  pub override_reason : Option Text

pub data GateResult : Type 0 where
  refusal : GateRefusal → GateResult
  ownership : Ownership → GateResult
  throws_error : GateResult

unfoldable pub gate_result : (key : ℕ) (branch : Option Text) → Decision → GateResult
gate_result key branch (granted next cap reason action) = ownership (record {
  key = key;
  branch_name = branch;
  cycle_number = next;
  cap = cap;
  next_action = action;
  override_reason = reason;
})
gate_result key branch (refused e prior cap action) = refusal (cap_refusal e prior cap action)
gate_result key branch throws = throws_error

-- `if (!branchName)`: the empty name counts as none.
unfoldable pub resolved_branch : Option Text → Option Text
resolved_branch none = none
resolved_branch (some []) = none
resolved_branch (some (c ∷ s)) = some (c ∷ s)

unfoldable pub effective_issue : (issue_number : Option ℕ) → Text → Option ℕ
unfolding positive derive_issue_number_from_branch
effective_issue issue_number branch = elim (positive issue_number) [
  | some n ↦ some n
  | none ↦ derive_issue_number_from_branch branch
]

unfoldable pub prepush_capped :
    PrepushInput → Text → ℕ → (prior_count : ℕ) → CapReading → GateResult
unfolding gate_result evaluate_prepush_cap
prepush_capped i branch issue prior (configured cap) =
    gate_result issue (some branch)
      (evaluate_prepush_cap (some prior) cap i.override_cap i.override_reason)
prepush_capped i branch issue prior config_invalid =
    refusal (reviewer_cap_config_invalid issue branch)
prepush_capped i branch issue prior unreadable = throws_error

unfoldable pub prepush_at : PrepushInput → Text → ℕ → GateResult
unfolding prepush_capped count_markers
prepush_at i branch issue = elim (i.thread issue) [
  | none ↦ throws_error
  | some bodies ↦ prepush_capped i branch issue (count_markers bodies issue) i.cap
]

unfoldable pub enforce_prepush_review_cap : PrepushInput → GateResult
unfolding resolved_branch effective_issue prepush_at
enforce_prepush_review_cap i = elim (resolved_branch i.branch) [
  | none ↦ refusal prepush_branch_unresolved
  | some branch ↦ elim (effective_issue i.issue_number branch) [
    | none ↦ refusal (prepush_issue_unresolved branch)
    | some issue ↦ prepush_at i branch issue
  ]
]

-- What a gate after the push takes and reads; `phases` are the completed phases of an issue.
pub record PostpushInput : Type 0 where
  pub pr_number : ℕ
  pub closing_issues : List ℕ
  pub phases : ℕ → List Text
  pub prior_count : Option ℕ
  pub override_cap : Bool
  pub override_reason : Option Text
  pub override_phase_gate : Bool
  pub override_phase_reason : Option Text

abbrev pub plan : Text
plan = codes "plan"

unfoldable pub has_plan : List Text → Bool
unfolding text_eq
has_plan phases = any (λ p. text_eq p plan) phases

-- The loop over the closing issues, up to the first with a plan: whether there is one, and the
-- issues checked.
unfoldable pub check_issues : (ℕ → List Text) → List ℕ → Bool × List (ℕ × List Text)
unfolding has_plan
check_issues phases [] = (false, [])
check_issues phases (n ∷ ns) =
    let (found, checked) = check_issues phases ns in
    if has_plan (phases n) then (true, (n, phases n) ∷ []) else (found, (n, phases n) ∷ checked)

unfoldable pub is_reason : Option Text → Bool
unfolding is_blank
is_reason none = false
is_reason (some s) = not (is_blank s)

-- The refusal of the phase gate, if it refuses.
unfoldable pub phase_refusal : PostpushInput → Option GateRefusal
unfolding check_issues is_reason
phase_refusal i =
    let (found, checked) = check_issues i.phases i.closing_issues in
    if ltb 0 (length i.closing_issues) && not i.override_phase_gate
    then if found then none else some (phase_prerequisite_missing i.closing_issues checked)
    else if i.override_phase_gate && not (is_reason i.override_phase_reason)
    then some phase_override_missing_reason
    else none

unfoldable pub enforce_postpush_review_gate : PostpushInput → GateResult
unfolding phase_refusal gate_result evaluate_review_cap
enforce_postpush_review_gate i = elim (phase_refusal i) [
  | some r ↦ refusal r
  | none ↦
      gate_result i.pr_number none
        (evaluate_review_cap i.prior_count codex_review_hard_cap i.override_cap i.override_reason)
]
