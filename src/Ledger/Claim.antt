-- ===== src/Ledger/Claim.antt =====
-- What a run writes to the log: `claimNext`, `identityCollision`, `ownedBy` and `appendOutcome` of
-- mcp/ground-control/lib/release-identity.js, up to the calls of GitHub.
use Prim.Native.Nat.{max}
use ground_control.Prelude.Text.{Text, text_eq}
use ground_control.Ledger.Event.{
  Sha, Event, Message, build_validated_message, Body, Codec, reserved, release_ledger_slots_max,
  Claim,
}
use ground_control.Prelude.{
  List, ℕ, Bool, Option, ◌==◌, find, some, ◌&&◌, length, ◌||◌, if◌then◌else◌, none, ◌+◌, any, not,
  ltb,
}
use ground_control.Ledger.Fold.{highest, Reservation, last_claim}
use ground_control.Ledger.Family.{
  render_release_identity, release_paths_conflict, release_sequence_renderable, Family,
  release_path_sets_overlap, Identity, values,
}

-- The fields of `ctx` that decide about the log.
pub record Caller : Type 0 where
  pub repository : Text
  pub family : Text
  pub issue_number : ℕ
  pub idempotency_hash : Text

-- `base`: the head of the family's base branch, its tree, and the family that is defined there.
pub record Base : Type 0 where
  pub head : Sha
  pub tree : Sha
  pub family : Family

unfoldable pub is_owned_by : Caller → Reservation → Bool
unfolding text_eq
is_owned_by caller r =
    (r.claim.event.issue_number == caller.issue_number)
    && text_eq r.claim.event.idempotency_hash caller.idempotency_hash

-- `ownedBy`
unfoldable pub owned_by : Caller → List Reservation → Option Reservation
unfolding is_owned_by
owned_by caller rs = find (is_owned_by caller) rs

unfoldable pub next_sequence : Base → List Reservation → ℕ
unfolding highest
next_sequence base before = max base.family.sequence_floor (highest before + 1)

-- The fields of the claim's event that only a `reserved` event has.
unfoldable pub claim_terms : (codec : Codec) → Base → List Reservation → (branch : Text) → Claim
unfolding next_sequence render_release_identity last_claim
claim_terms codec base before branch =
    let identity = render_release_identity base.family (next_sequence base before) in
    record {
      branch = branch;
      previous_claim = last_claim before;
      version = identity.version;
      paths = identity.paths;
      base_branch = base.family.base_branch;
      base_revision = base.head;
      family_definition = base.family;
      family_digest = codec.family_digest base.family;
    }

unfoldable pub claim_event :
    (codec : Codec) → Caller → Base → List Reservation → (branch : Text) → Event
unfolding next_sequence claim_terms
claim_event codec caller base before branch = record {
  repository = caller.repository;
  family = caller.family;
  slot = length before + 1;
  sequence = next_sequence base before;
  issue_number = caller.issue_number;
  idempotency_hash = caller.idempotency_hash;
  body = reserved (claim_terms codec base before branch);
}

unfoldable pub collides_with : Identity → Reservation → Bool
unfolding text_eq release_path_sets_overlap
collides_with identity other =
    text_eq other.terms.version identity.version
    || release_path_sets_overlap (values other.terms.paths) (values identity.paths)

-- `identityCollision`; `is_taken` says that a path is not absent at the base head.
unfoldable pub has_collision : (is_taken : Text → Bool) → Identity → List Reservation → Bool
unfolding release_paths_conflict collides_with
has_collision is_taken identity before =
    release_paths_conflict (values identity.paths)
    || any (collides_with identity) before
    || any is_taken (values identity.paths)

pub data ClaimPlan : Type 0 where
  sequence_exhausted path_escapes_checkout identity_collision unrepresentable : ClaimPlan
  claim_with : Event → Message → ClaimPlan

unfoldable pub plan_message : Event → Option Message → ClaimPlan
plan_message e none = unrepresentable
plan_message e (some m) = claim_with e m

-- `claimNext` before its calls; `is_outside` says that some path does not resolve inside the checkout.
unfoldable pub plan_claim :
    (codec : Codec) (is_outside : Identity → Bool) (is_taken : Text → Bool)
    → Caller
    → Base
    → List Reservation
    → (branch : Text) → ClaimPlan
unfolding next_sequence release_sequence_renderable render_release_identity has_collision
    claim_event build_validated_message plan_message
plan_claim codec is_outside is_taken caller base before branch =
    let identity = render_release_identity base.family (next_sequence base before) in
    let e = claim_event codec caller base before branch in
    if not (release_sequence_renderable base.family (next_sequence base before))
      || ltb release_ledger_slots_max (length before + 1)
    then sequence_exhausted
    else if is_outside identity
    then path_escapes_checkout
    else if has_collision is_taken identity before
    then identity_collision
    else plan_message e (build_validated_message codec e)

-- The event of `appendOutcome`.
unfoldable pub outcome_event : Caller → Reservation → Body → Event
outcome_event caller r body = record {
  repository = caller.repository;
  family = caller.family;
  slot = r.slot;
  sequence = r.sequence;
  issue_number = r.claim.event.issue_number;
  idempotency_hash = r.claim.event.idempotency_hash;
  body = body;
}
