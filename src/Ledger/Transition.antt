-- ===== src/Ledger/Transition.antt =====
-- `publish`, `abandon` and `status` of mcp/ground-control/lib/release-identity.js, with their calls.
use ground_control.Ledger.Calls.{
  ◌>>=◌, call, creating, reservation_not_found, undecided, artifacts_missing,
}
use ground_control.Ledger.Event.{
  capture_not_needed, generation_failed, superseded, run_abandoned, Reason,
}
use ground_control.Prelude.{
  ℕ, Bool, Option, List, true, false, ◌∷◌, some, ◌==◌, none, if◌then◌else◌, suc, not, [], ltb,
  length, zero,
}
use ground_control.Ledger.Fold.{Reservation, EventCommit}
use ground_control.Ledger.Event.{
  Reason, Body, Sha, published, build_validated_message, abandoned, Message,
}
use ground_control.Prelude.Text.{Text}
use ground_control.Ledger.Calls.{
  Api, Entry, Head, of_option, Created, file, Refusal, create_ledger_ref, Run, taken,
  already_published, answer, refuse, already_abandoned, base_unstable, unrepresentable_identity,
  write_undecided, base_branch_missing,
}
use ground_control.Ledger.Operation.{
  Context, require_run_branch, respond, fold_log, check_issue, Reply, require, from_option,
}
use ground_control.Ledger.View.{to_view, in_published, in_reserved, in_abandoned}
use ground_control.Ledger.Names.{release_ledger_ref, RefKind}
use ground_control.Ledger.Claim.{outcome_event, owned_by}

abbrev pub head_observations_max : ℕ
head_observations_max = 3

pub data Action : Type 0 where
  publish_it : Action
  abandon_it : Reason → Action

unfoldable pub reason_eq : Reason → Reason → Bool
reason_eq capture_not_needed capture_not_needed = true
reason_eq generation_failed generation_failed = true
reason_eq superseded superseded = true
reason_eq run_abandoned run_abandoned = true
reason_eq _ _ = false

-- `isIdenticalOutcome` of `publish` and of `abandon`
unfoldable pub is_identical : Action → Body → Bool
unfolding reason_eq
is_identical publish_it (published r a) = true
is_identical (abandon_it reason) (abandoned r) = reason_eq r reason
is_identical _ _ = false

unfoldable pub add_artifact :
    Text → Entry → List (Text × Sha) × List Text → List (Text × Sha) × List Text
add_artifact key (file sha) (artifacts, missing) = ((key, sha) ∷ artifacts, missing)
add_artifact key _ (artifacts, missing) = (artifacts, key ∷ missing)

unfoldable pub is_at : Sha → Option Head → Bool
is_at sha none = false
is_at sha (some h) = h.sha == sha

unfoldable pub with_outcome : Reservation → Option EventCommit → Option (Reservation × EventCommit)
with_outcome r none = none
with_outcome r (some o) = some (r, o)

-- `winner`, where it has an outcome.
unfoldable pub winner_of : Option Reservation → Option (Reservation × EventCommit)
unfolding with_outcome
winner_of none = none
winner_of (some r) = with_outcome r r.outcome

unfoldable pub is_taken_by_other : Created → Bool
is_taken_by_other taken = true
is_taken_by_other _ = false

module _ {W : Type 0} (api : Api W) (ctx : Context) where
  -- `terminalRefusal`
  unfoldable pub terminal_refusal : Reservation → Refusal
  unfolding to_view
  terminal_refusal r =
      let view = to_view ctx.caller.repository ctx.caller.family r in
      elim view.state [
        | in_published ↦ already_published view
        | in_reserved ↦ already_abandoned view
        | in_abandoned ↦ already_abandoned view
      ]

  -- `verifyArtifactsAt`
  unfoldable pub verify_artifacts_at :
      List (Text × Text) → (tree : Sha) → Run W (List (Text × Sha) × List Text)
  unfolding add_artifact of_option
  verify_artifacts_at [] tree = answer ([], [])
  verify_artifacts_at ((key, path) ∷ paths) tree = do
    entry ← call (api.lookup_path tree path)
    rest ← verify_artifacts_at paths tree
    answer (add_artifact key entry rest)

  unfoldable pub stable_head : Bool → (again : Run W Body) → Body → Run W Body
  stable_head true again body = answer body
  stable_head false again body = again

  -- The loop of `publish`'s `decide`, with the observations that are left and the head seen last.
  unfoldable pub observe : ℕ → Reservation → Option Head → Run W Body
  unfolding verify_artifacts_at stable_head is_at to_view of_option
  observe zero r head = refuse base_unstable
  observe (suc n) r none = refuse base_branch_missing
  observe (suc n) r (some head) = do
    seen ← verify_artifacts_at r.terms.paths head.tree
    _ ←
        require (not (ltb 0 (length seen.1)))
          (artifacts_missing seen.1 (to_view ctx.caller.repository ctx.caller.family r))
    again ← call (api.branch_head r.terms.base_branch)
    stable_head (is_at head.sha again) (observe n r again) (published head.sha seen.0)

  -- `decide` of `publish` and of `abandon`
  unfoldable pub decide : Action → Reservation → Run W Body
  unfolding observe require_run_branch of_option
  decide publish_it r = do
    head ← call (api.branch_head r.terms.base_branch)
    observe head_observations_max r head
  decide (abandon_it reason) r = do
    _ ← require_run_branch api ctx (some r.terms.branch)
    answer (abandoned reason)

  unfoldable pub write_outcome : Reservation → Option Message → Run W Created
  unfolding release_ledger_ref create_ledger_ref of_option
  write_outcome r none = refuse unrepresentable_identity
  write_outcome r (some m) = do
    sha ← call (api.create_commit m r.claim.commit.tree r.claim.commit.sha)
    creating api (release_ledger_ref ctx.caller.family RefKind.outcomes r.slot) sha

  -- `appendOutcome`
  unfoldable pub append_outcome : Reservation → Body → Run W Created
  unfolding write_outcome outcome_event build_validated_message
  append_outcome r body =
      write_outcome r (build_validated_message ctx.codec (outcome_event ctx.caller r body))

  unfoldable pub converge_on : Action → (reused : Bool) → Reservation → EventCommit → Run W Reply
  unfolding is_identical respond terminal_refusal
  converge_on action reused r o =
      if is_identical action o.event.body
      then respond api ctx r reused
      else refuse (terminal_refusal r)

  unfoldable pub after_outcome : Action → Created → Run W Reply
  unfolding fold_log winner_of converge_on is_taken_by_other owned_by
  after_outcome action undecided = refuse write_undecided
  after_outcome action c = do
    settled ← fold_log api ctx
    won ← from_option write_undecided (winner_of (owned_by ctx.caller settled))
    converge_on action (is_taken_by_other c) won.0 won.1

  unfoldable pub settle_new : Action → Reservation → Run W Reply
  unfolding check_issue decide append_outcome after_outcome
  settle_new action r = do
    _ ← check_issue api ctx false
    body ← decide action r
    c ← append_outcome r body
    after_outcome action c

  unfoldable pub settle_on : Action → Reservation → Option EventCommit → Run W Reply
  unfolding settle_new converge_on
  settle_on action r none = settle_new action r
  settle_on action r (some o) = converge_on action true r o

  -- `transition`
  unfoldable pub transition : Action → Run W Reply
  unfolding fold_log settle_on owned_by
  transition action = do
    before ← fold_log api ctx
    r ← from_option reservation_not_found (owned_by ctx.caller before)
    settle_on action r r.outcome
