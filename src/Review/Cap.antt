-- ===== src/Review/Cap.antt =====
-- The three cycle caps of the MCP server: `evaluateCodexReviewPrePushCycleCap` of
-- mcp/ground-control/lib/api-requirements.js, `evaluateCodexReviewCycleCap` of
-- mcp/ground-control/lib/repo-context-2.js and `evaluateCodexVerifyCycleCap` of
-- mcp/ground-control/lib/codex-verify-cap.js.
use ground_control.Prelude.{ℕ, ◌+◌, Bool, Option, none, some, if◌then◌else◌, leb, ◌==◌}
use ground_control.Prelude.Text.{Text, trim, is_blank}

-- The `error` codes of the three evaluators, less the prefix that names the evaluator.
pub data CapError : Type 0 where
  override_missing_reason cap_reached : CapError

-- The `next_action` codes of the three evaluators.
pub data NextAction : Type 0 where
  fix_findings_then_ask_over_cap_or_proceed ask_over_cap_or_proceed : NextAction
  fix_all_findings_and_restage fix_all_findings_and_push : NextAction
  fix_finding_then_escalate_if_still_unresolved escalate_finding_to_user : NextAction
  fix_finding_and_retry : NextAction

-- What an evaluator returns; `throws` is its exception on a count that is none.
pub data Decision : Type 0 where
  granted :
      (next_cycle cap : ℕ) (override_reason : Option Text) (next_action : NextAction) → Decision
  refused : (error : CapError) (prior_cycles cap : ℕ) (next_action : Option NextAction) → Decision
  throws : Decision

-- `overrideReason` is a text with something in it.
unfoldable pub authorization : Option Text → Option Text
unfolding is_blank trim
authorization none = none
authorization (some s) = if is_blank s then none else some (trim s)

abbrev pub codex_review_prepush_hard_cap : ℕ
codex_review_prepush_hard_cap = 1

abbrev pub codex_review_hard_cap : ℕ
codex_review_hard_cap = 3

abbrev pub codex_verify_hard_cap : ℕ
codex_verify_hard_cap = 2

-- `prior` is none for a value that is not a finite number of at least 0.
unfoldable pub decide_override : ℕ → ℕ → NextAction → Option Text → Decision
decide_override prior cap action none = refused override_missing_reason prior cap none
decide_override prior cap action (some reason) = granted (prior + 1) cap (some reason) action

unfoldable pub evaluate_prepush_cap :
    (prior : Option ℕ) (hard_cap : ℕ) (override_cap : Bool) (override_reason : Option Text)
    → Decision
unfolding decide_override authorization
evaluate_prepush_cap none cap override reason = throws
evaluate_prepush_cap (some prior) cap override reason =
    if override
    then decide_override prior cap fix_findings_then_ask_over_cap_or_proceed (authorization reason)
    else if leb cap prior
    then refused cap_reached prior cap (some ask_over_cap_or_proceed)
    else granted (prior + 1) cap none (
        if prior + 1 == cap
        then fix_findings_then_ask_over_cap_or_proceed
        else fix_all_findings_and_restage)

unfoldable pub evaluate_review_cap :
    (prior : Option ℕ) (hard_cap : ℕ) (override_cap : Bool) (override_reason : Option Text)
    → Decision
unfolding decide_override authorization
evaluate_review_cap none cap override reason = throws
evaluate_review_cap (some prior) cap override reason =
    if override
    then decide_override prior cap fix_findings_then_ask_over_cap_or_proceed (authorization reason)
    else if leb cap prior
    then refused cap_reached prior cap (some ask_over_cap_or_proceed)
    else granted (prior + 1) cap none (
        if prior + 1 == cap
        then fix_findings_then_ask_over_cap_or_proceed
        else fix_all_findings_and_push)

unfoldable pub evaluate_verify_cap :
    (prior : Option ℕ) (hard_cap : ℕ) (override_cap : Bool) (override_reason : Option Text)
    → Decision
unfolding decide_override authorization
evaluate_verify_cap none cap override reason = throws
evaluate_verify_cap (some prior) cap override reason =
    if override
    then decide_override prior cap fix_finding_then_escalate_if_still_unresolved
        (authorization reason)
    else if leb cap prior
    then refused cap_reached prior cap (some escalate_finding_to_user)
    else granted (prior + 1) cap none (
        if prior + 1 == cap
        then fix_finding_then_escalate_if_still_unresolved
        else fix_finding_and_retry)
