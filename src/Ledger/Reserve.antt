-- ===== src/Ledger/Reserve.antt =====
-- `claimNext`, `claimAvailableIdentity` and `reserve` of
-- mcp/ground-control/lib/release-identity.js, with their calls.
use ground_control.Ledger.Calls.{◌>>=◌, call, undecided, creating, unrepresentable_identity}
use ground_control.Prelude.{ℕ, Bool, true, Option, false, List, ◌∷◌, some, not, suc, none, zero, []}
use ground_control.Ledger.Fold.{Reservation}
use ground_control.Ledger.Calls.{
  Entry, Created, Api, of_option, create_ledger_ref, Run, answer, refuse, absent, created,
  write_undecided, allocation_contended, config_invalid, exhausted, escapes_checkout,
  family_not_configured, collision,
}
use ground_control.Ledger.Operation.{
  Context, respond, fold_log, check_issue, require_run_branch, Reply, read_base_family, from_option,
  require,
}
use ground_control.Ledger.Names.{release_ledger_ref, RefKind}
use ground_control.Ledger.Family.{render_release_identity, Family, values}
use ground_control.Prelude.Text.{Text}
use ground_control.Ledger.Claim.{
  plan_claim, next_sequence, Base, owned_by, ClaimPlan, claim_with, sequence_exhausted,
  path_escapes_checkout, identity_collision, unrepresentable,
}
use ground_control.Ledger.Event.{Sha, Event, Message}

abbrev pub claim_attempts_max : ℕ
claim_attempts_max = 8

unfoldable pub is_absent : Entry → Bool
is_absent absent = true
is_absent _ = false

unfoldable pub is_created : Created → Bool
is_created created = true
is_created _ = false

module _ {W : Type 0} (api : Api W) (ctx : Context) where
  -- The lookups of `identityCollision`: the first path that is not absent ends them.
  unfoldable pub any_taken : (tree : Sha) → List Text → Run W Bool
  unfolding is_absent of_option
  any_taken tree [] = answer false
  any_taken tree (p ∷ ps) = do
    entry ← call (api.lookup_path tree p)
    elim (is_absent entry) [ true ↦ any_taken tree ps | false ↦ answer true ]

  unfoldable pub write_claim : Base → Event → Message → Run W Created
  unfolding release_ledger_ref create_ledger_ref of_option
  write_claim base e m = do
    sha ← call (api.create_commit m base.tree base.head)
    creating api (release_ledger_ref ctx.caller.family RefKind.claims e.slot) sha

  -- `claimNext` after the tests that need no call.
  unfoldable pub run_plan : Base → List Reservation → ClaimPlan → Run W Created
  unfolding any_taken write_claim render_release_identity next_sequence
  run_plan base before sequence_exhausted = refuse exhausted
  run_plan base before path_escapes_checkout = refuse escapes_checkout
  run_plan base before identity_collision = refuse collision
  run_plan base before unrepresentable = do
    let identity = render_release_identity base.family (next_sequence base before)
    taken ← any_taken base.tree (values identity.paths)
    _ ← require (not taken) collision
    refuse unrepresentable_identity
  run_plan base before (claim_with e m) = do
    let identity = render_release_identity base.family (next_sequence base before)
    taken ← any_taken base.tree (values identity.paths)
    _ ← require (not taken) collision
    write_claim base e m

  abbrev pub never : Text → Bool
  never p = false

  -- `claimNext`
  unfoldable pub claim_next : Base → List Reservation → (branch : Text) → Run W Created
  unfolding plan_claim run_plan
  claim_next base before branch =
      run_plan base before (plan_claim ctx.codec ctx.is_outside never ctx.caller base before branch)

  -- What follows a decided creation: the run's own reservation, or another attempt.
  unfoldable pub settle_claim : Run W Reply → Created → Option Reservation → Run W Reply
  unfolding respond is_created
  settle_claim again c (some r) = respond api ctx r (not (is_created c))
  settle_claim again c none = again

  unfoldable pub after_claim : (List Reservation → Run W Reply) → Created → Run W Reply
  unfolding fold_log settle_claim owned_by
  after_claim again undecided = refuse write_undecided
  after_claim again c = do
    before ← fold_log api ctx
    settle_claim (again before) c (owned_by ctx.caller before)

  -- `claimAvailableIdentity`, with the attempts that are left.
  unfoldable pub claim_available : ℕ → Base → List Reservation → (branch : Text) → Run W Reply
  unfolding claim_next after_claim
  claim_available zero base before branch = refuse allocation_contended
  claim_available (suc n) base before branch = do
    c ← claim_next base before branch
    after_claim (λ now. claim_available n base now branch) c

  unfoldable pub local_family : Option (Text → Option Family) → Run W Family
  local_family none = refuse config_invalid
  local_family (some families) = from_option family_not_configured (families ctx.caller.family)

  -- `reserve` where the caller has no reservation.
  unfoldable pub reserve_new : List Reservation → Run W Reply
  unfolding check_issue local_family require_run_branch read_base_family claim_available
  reserve_new before = do
    _ ← check_issue api ctx true
    local ← local_family ctx.local_families
    branch ← require_run_branch api ctx none
    base ← read_base_family api ctx local.base_branch
    claim_available claim_attempts_max base before branch

  unfoldable pub reserve_from : List Reservation → Option Reservation → Run W Reply
  unfolding respond reserve_new
  reserve_from before (some r) = respond api ctx r true
  reserve_from before none = reserve_new before

  -- `reserve`
  unfoldable pub reserve : Run W Reply
  unfolding fold_log reserve_from owned_by
  reserve = do before ← fold_log api ctx; reserve_from before (owned_by ctx.caller before)
