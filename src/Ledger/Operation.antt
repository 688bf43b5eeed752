-- ===== src/Ledger/Operation.antt =====
-- The reservation operation of mcp/ground-control/lib/release-identity.js: `reserve` with
-- `claimAvailableIdentity`, `claimNext` and the checks before them.
use ground_control.Prelude.{
  Bool, Option, List, some, false, true, ◌==◌, none, ◌&&◌, if◌then◌else◌, not, ◌||◌,
}
use ground_control.Ledger.Fold.{
  Read, fold_release_ledger, read_ok, RefEntry, Reservation, malformed, unavailable,
}
use ground_control.Ledger.Claim.{Caller, Base}
use ground_control.Ledger.View.{View, State, to_view, in_reserved, in_published, in_abandoned}
use ground_control.Ledger.Calls.{
  Refusal, Api, Result, Run, of_option, refuse, answer, IssueRead, Entry, Declared, done,
  run_not_authorized, call, file, refused, ◌>>=◌, log_malformed, records_failed, issue_not_an_issue,
  base_branch_missing, threw, base_repo_mismatch, family_not_on_base, issue_not_open,
}
use ground_control.Ledger.Event.{Codec, Reason}
use ground_control.Prelude.Text.{Text, text_eq, codes, option_eq}
use ground_control.Ledger.Names.{is_release_issue_branch}
use ground_control.Ledger.Family.{Family, Identity}

-- `ctx`, with the parser of the configuration and the test that a path leaves the checkout.
pub record Context : Type 0 where
  pub caller : Caller
  pub codec : Codec
  pub reason : Option Reason
  pub local_families : Option (Text → Option Family)
  pub parse_config : Text → Option Declared
  pub is_outside : Identity → Bool

pub record Reply : Type 0 where
  pub view : View
  pub reused : Bool

-- `NEXT_ACTION_BY_STATE`
unfoldable pub next_action : State → Text
next_action in_reserved = codes "generate_the_capture_at_the_returned_paths"
next_action in_published = codes "none"
next_action in_abandoned =
    codes "reserve_again_with_a_new_idempotency_key_if_a_new_identity_is_needed"

unfoldable pub of_read : {A : Type 0} → Read A → Result A
of_read (read_ok a) = done a
of_read malformed = refused log_malformed
of_read unavailable = threw

abbrev pub from_option : {W A : Type 0} → Refusal → Option A → Run W A
from_option e none = refuse e
from_option e (some a) = answer a

abbrev pub require : {W : Type 0} → Bool → Refusal → Run W (Unit {0})
require true e = answer tt
require false e = refuse e

module _ {W : Type 0} (api : Api W) (ctx : Context) where
  -- `foldReleaseLedger(ctx.api, ctx.family)`; a malformed log is refused.
  unfoldable pub fold_refs : List RefEntry → Run W (List Reservation)
  unfolding fold_release_ledger of_read
  fold_refs refs w = (
    w,
    of_read (
        fold_release_ledger ctx.codec ctx.caller.repository ctx.caller.family (api.read_commit w)
          refs),
  )

  unfoldable pub fold_log : Run W (List Reservation)
  unfolding of_option fold_refs
  fold_log = call api.list_refs >>= fold_refs

  -- `respondWithRecords`
  unfoldable pub respond : Reservation → (reused : Bool) → Run W Reply
  unfolding to_view of_option
  respond r reused = do
    let view = to_view ctx.caller.repository ctx.caller.family r
    posted ← call (api.ensure_records view)
    _ ← require posted (records_failed view)
    answer (record { view = view; reused = reused })

  unfoldable pub is_issue : Option IssueRead → Bool
  is_issue none = false
  is_issue (some i) = (i.number == ctx.caller.issue_number) && not i.is_pull_request

  unfoldable pub is_open_issue : Option IssueRead → Bool
  is_open_issue none = false
  is_open_issue (some i) = i.is_open

  -- `checkIssue`
  unfoldable pub check_issue : (require_open : Bool) → Run W (Unit {0})
  unfolding is_issue is_open_issue of_option
  check_issue require_open = do
    issue ← call (api.read_issue ctx.caller.issue_number)
    _ ← require (is_issue issue) issue_not_an_issue
    require (not require_open || is_open_issue issue) issue_not_open

  unfoldable pub branch_matches : (expected active : Option Text) → Bool
  unfolding is_release_issue_branch option_eq
  branch_matches none active = is_release_issue_branch active ctx.caller.issue_number
  branch_matches (some b) active = option_eq active (some b)

  unfoldable pub trusted_branch : (expected active : Option Text) → Run W Text
  unfolding branch_matches of_option
  trusted_branch expected none = refuse run_not_authorized
  trusted_branch expected (some b) = do
    _ ← require (branch_matches expected (some b)) run_not_authorized
    trusted ← call (api.is_trusted_run_branch ctx.caller.issue_number b)
    _ ← require trusted run_not_authorized
    answer b

  -- `requireRunBranch`
  unfoldable pub require_run_branch : (expected : Option Text) → Run W Text
  unfolding trusted_branch of_option
  require_run_branch expected = call api.read_active_branch >>= trusted_branch expected

  unfoldable pub config_text : Entry → Run W (Option Text)
  unfolding of_option
  config_text (file sha) = call (api.read_blob_text sha)
  config_text _ = answer none

  unfoldable pub parse_text : Option Text → Option Declared
  parse_text none = none
  parse_text (some t) = ctx.parse_config t

  -- `declared.toLowerCase() !== ctx.api.repository.toLowerCase()` does not hold.
  unfoldable pub is_same_repo : Option Declared → Bool
  unfolding text_eq
  is_same_repo none = true
  is_same_repo (some d) = elim d.github_repo [
    | none ↦ true
    | some r ↦ text_eq (ctx.codec.to_lower r) (ctx.codec.to_lower ctx.caller.repository)
  ]

  unfoldable pub family_on : Text → Option Declared → Option Family
  unfolding text_eq
  family_on base_branch none = none
  family_on base_branch (some d) = elim d.family [
    | none ↦ none
    | some f ↦ if text_eq f.base_branch base_branch then some f else none
  ]

  -- `readBaseFamily`
  unfoldable pub read_base_family : Text → Run W Base
  unfolding config_text parse_text is_same_repo family_on of_option
  read_base_family base_branch = do
    found_head ← call (api.branch_head base_branch)
    head ← from_option base_branch_missing found_head
    entry ← call (api.lookup_path head.tree (codes ".ground-control.yaml"))
    text ← config_text entry
    let declared = parse_text text
    _ ← require (is_same_repo declared) base_repo_mismatch
    family ← from_option family_not_on_base (family_on base_branch declared)
    answer (record { head = head.sha; tree = head.tree; family = family })
