-- ===== src/Ledger/Race.antt =====
-- Runs that share the log of a family: `claimNext` and `appendOutcome` of
-- mcp/ground-control/lib/release-identity.js with `createLedgerRef` and `foldReleaseLedger` of
-- mcp/ground-control/lib/release-identity-ledger.js, interleaved.
use ground_control.Prelude.{
  arith, ℕ, Option, ◌∷◌, ◌≡◌, List, some, length, [], ◌≤◌, none, true, Bool,
}
use ground_control.Ledger.Fold.{
  Commit, Classified, slot_of, has_good_shape, fold_slots, Reservation, Read, read_ok, guard, ◌>>=◌,
  is_outcome, artifacts_match,
}
pub mod Slots
pub mod Invariant
pub mod Claims
pub mod ClaimStep
pub mod Outcomes
pub mod Safety
pub mod Winner
pub mod References
use ground_control.Ledger.Event.{Sha, Codec, Message, Body, Event, build_validated_message}
use ground_control.Prelude.Text.{Text}
use ground_control.Ledger.Bare.{Extends}
use ground_control.Ledger.Claim.{Caller, owned_by, Base, plan_claim, outcome_event, claim_with}
use ground_control.Ledger.Family.{Identity}

-- What the repository on GitHub holds of a family: its references, classified, and its commits.
pub record Repo : Type 0 where
  pub refs : Classified
  pub commits : Sha → Option Commit

-- A later state has every claim and every commit that the earlier one has, unchanged.
pub record Later (seen r : Repo) : Type 0 where
  pub kept :
      (k : ℕ) (v : Sha) → slot_of k seen.refs.claims ≡ some v → slot_of k r.refs.claims ≡ some v
  pub grown : length seen.refs.claims ≤ length r.refs.claims
  pub commits_kept : Extends seen.commits r.commits

-- `createCommit({ message, treeSha, parentSha })` has returned `sha`.
pub record IsWritten (commits : Sha → Option Commit) (sha : Sha) (m : Message) (tree parent : Sha)
    : Type 0 where
  pub commit : Commit
  pub stored : commits sha ≡ some commit
  pub has_message : commit.message ≡ m
  pub has_tree : commit.tree ≡ tree
  pub has_parent : commit.parents ≡ parent ∷ []

-- `createRef` has created a reference: it does so only where there is none of that name.
unfoldable pub add_claim : ℕ → Sha → Repo → Repo
add_claim slot sha r = record r {
  refs = record { claims = (slot, sha) ∷ r.refs.claims; outcomes = r.refs.outcomes };
}

unfoldable pub add_outcome : ℕ → Sha → Repo → Repo
add_outcome slot sha r = record r {
  refs = record { claims = r.refs.claims; outcomes = (slot, sha) ∷ r.refs.outcomes };
}

module _ (codec : Codec) (repository family : Text) where
  -- `foldReleaseLedger` in a state
  unfoldable pub log_of : Repo → Read (List Reservation)
  unfolding has_good_shape fold_slots slot_of
  log_of r = guard (has_good_shape r.refs) >>= λ _.
      fold_slots codec repository family r.commits (λ n. slot_of n r.refs.claims)
        (λ n. slot_of n r.refs.outcomes) (length r.refs.claims)

  -- A run has claimed a slot with what it knew of the log in an earlier state.
  pub record Claiming (r : Repo) (slot : ℕ) (sha : Sha) : Type 0 where
    pub seen : Repo
    pub later : Later seen r
    pub before : List Reservation
    pub seen_log : log_of seen ≡ read_ok before
    pub caller : Caller
    pub for_repository : caller.repository ≡ repository
    pub for_family : caller.family ≡ family
    pub owns_none : owned_by caller before ≡ none
    pub base : Base
    pub branch : Text
    pub is_outside : Identity → Bool
    pub is_taken : Text → Bool
    pub event : Event
    pub message : Message
    pub planned :
        plan_claim codec is_outside is_taken caller base before branch ≡ claim_with event message
    pub at_slot : slot ≡ event.slot
    pub base_commit : Commit
    pub base_stored : r.commits base.head ≡ some base_commit
    pub base_tree : base_commit.tree ≡ base.tree
    pub written : IsWritten r.commits sha message base.tree base.head
    pub is_free : slot_of slot r.refs.claims ≡ none

  -- A run has appended an outcome to its reservation, with what it knew of the log.
  pub record Settling (r : Repo) (slot : ℕ) (sha : Sha) : Type 0 where
    pub seen : Repo
    pub later : Later seen r
    pub before : List Reservation
    pub seen_log : log_of seen ≡ read_ok before
    pub caller : Caller
    pub for_repository : caller.repository ≡ repository
    pub for_family : caller.family ≡ family
    pub mine : Reservation
    pub owns : owned_by caller before ≡ some mine
    pub body : Body
    pub decided : is_outcome body ≡ true
    pub matched : artifacts_match body mine.terms ≡ true
    pub message : Message
    pub built : build_validated_message codec (outcome_event caller mine body) ≡ some message
    pub at_slot : slot ≡ mine.slot
    pub written : IsWritten r.commits sha message mine.claim.commit.tree mine.claim.commit.sha
    pub is_free : slot_of slot r.refs.outcomes ≡ none

  pub data Step : Repo → Repo → Type 0 where
    -- Commits appear, of a run or of anyone else.
    new_commits :
        {r : Repo} (commits : Sha → Option Commit)
        → Extends r.commits commits
        → Step r (record r { commits = commits })
    new_claim :
        {r : Repo} {slot : ℕ} {sha : Sha} → Claiming r slot sha → Step r (add_claim slot sha r)
    new_outcome :
        {r : Repo} {slot : ℕ} {sha : Sha} → Settling r slot sha → Step r (add_outcome slot sha r)

  pub data Steps : Repo → Repo → Type 0 where
    start : {r : Repo} → Steps r r
    one_more : {r s t : Repo} → Steps r s → Step s t → Steps r t
