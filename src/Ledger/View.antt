-- ===== src/Ledger/View.antt =====
-- `toView` of mcp/ground-control/lib/release-identity.js: a reservation as a result shows it.
use ground_control.Prelude.{Option, ℕ, List, some, ◌++◌, none, ◌∷◌, []}
use ground_control.Prelude.Text.{Text}
use ground_control.Ledger.Event.{Body, Sha, reserved, Reason, published, abandoned}
use ground_control.Ledger.Names.{release_ledger_ref, decimal, RefKind}
use ground_control.Ledger.Fold.{EventCommit, Reservation}

pub data State : Type 0 where
  in_reserved in_published in_abandoned : State

-- The fields that an outcome adds; what an outcome of another kind adds is none.
pub record OutcomeView : Type 0 where
  pub outcome_ref : Text
  pub outcome_commit : Sha
  pub published_revision : Option Sha
  pub artifacts : Option (List (Text × Sha))
  pub reason : Option Reason

pub record View : Type 0 where
  pub reservation_id : Text
  pub repository : Text
  pub family : Text
  pub slot : ℕ
  pub sequence : ℕ
  pub version : Text
  pub paths : List (Text × Text)
  pub base_branch : Text
  pub base_revision : Sha
  pub family_digest : Text
  pub issue_number : ℕ
  pub idempotency_hash : Text
  pub branch : Text
  pub state : State
  pub claim_ref : Text
  pub claim_commit : Sha
  pub outcome : Option OutcomeView

unfoldable pub state_of_body : Body → State
state_of_body (reserved c) = in_reserved
state_of_body (published r a) = in_published
state_of_body (abandoned r) = in_abandoned

-- `outcome?.event ?? "reserved"`
unfoldable pub state_of : Option EventCommit → State
unfolding state_of_body
state_of none = in_reserved
state_of (some o) = state_of_body o.event.body

unfoldable pub revision_of : Body → Option Sha
revision_of (published r a) = some r
revision_of _ = none

unfoldable pub artifacts_of : Body → Option (List (Text × Sha))
artifacts_of (published r a) = some a
artifacts_of _ = none

unfoldable pub reason_of : Body → Option Reason
reason_of (abandoned r) = some r
reason_of _ = none

unfoldable pub outcome_view : Text → ℕ → EventCommit → OutcomeView
unfolding release_ledger_ref revision_of artifacts_of reason_of
outcome_view family slot o = record {
  outcome_ref = release_ledger_ref family RefKind.outcomes slot;
  outcome_commit = o.commit.sha;
  published_revision = revision_of o.event.body;
  artifacts = artifacts_of o.event.body;
  reason = reason_of o.event.body;
}

unfoldable pub added_view : Text → ℕ → Option EventCommit → Option OutcomeView
unfolding outcome_view
added_view family slot none = none
added_view family slot (some o) = some (outcome_view family slot o)

-- `toView`
unfoldable pub to_view : Text → Text → Reservation → View
unfolding decimal state_of release_ledger_ref added_view
to_view repository family r = record {
  reservation_id = family ++ b'#' ∷ decimal r.sequence [];
  repository = repository;
  family = family;
  slot = r.slot;
  sequence = r.sequence;
  version = r.terms.version;
  paths = r.terms.paths;
  base_branch = r.terms.base_branch;
  base_revision = r.terms.base_revision;
  family_digest = r.terms.family_digest;
  issue_number = r.claim.event.issue_number;
  idempotency_hash = r.claim.event.idempotency_hash;
  branch = r.terms.branch;
  state = state_of r.outcome;
  claim_ref = release_ledger_ref family RefKind.claims r.slot;
  claim_commit = r.claim.commit.sha;
  outcome = added_view family r.slot r.outcome;
}
