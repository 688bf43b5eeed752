-- ===== src/Ledger/Fold.antt =====
-- `foldReleaseLedger` of mcp/ground-control/lib/release-identity-ledger.js: the log of a family, read
-- from its references and commits, and validated.
use ground_control.Ledger.Event.{
  Sha, Body, Codec, Message, Claim, reserved, parse_release_event_message, release_ledger_slots_max,
  published, Event,
}
use ground_control.Prelude.Text.{Text, text_eq, text_lt}
use ground_control.Prelude.{
  Bool, List, ℕ, Option, none, ◌∷◌, true, leb, ◌==◌, ◌&&◌, some, [], length, if◌then◌else◌, suc,
  false, ltb, is_some, all, not, any, zero,
}
use ground_control.Ledger.Names.{RefKind, parse_ledger_ref, ledger_namespace}
use ground_control.Ledger.Family.{keys}

pub record Commit : Type 0 where
  pub sha : Sha
  pub message : Message
  pub tree : Sha
  pub parents : List Sha

-- A reference as it is listed; `target` is none where its target is no object id.
pub record RefEntry : Type 0 where
  pub ref : Text
  pub target : Option Sha

-- What a read of the log ends in: a value, a malformed log, or a call of GitHub that failed.
pub data Read (A : Type 0) : Type 0 where
  read_ok : A → Read A
  malformed unavailable : Read A

infixl 5 ◌>>=◌
abbrev pub ◌>>=◌ : {A B : Type 0} → Read A → (A → Read B) → Read B
read_ok a >>= f = f a
malformed >>= f = malformed
unavailable >>= f = unavailable

abbrev pub guard : Bool → Read (Unit {0})
guard true = read_ok tt
guard false = malformed

-- A `Map` from slots to object ids.
abbrev pub Slots : Type 0
Slots = List (ℕ × Sha)

unfoldable pub slot_of : ℕ → Slots → Option Sha
slot_of slot [] = none
slot_of slot ((k, v) ∷ m) = if k == slot then some v else slot_of slot m

unfoldable pub set_slot : ℕ → Sha → Slots → Slots
set_slot slot v [] = (slot, v) ∷ []
set_slot slot v ((k, w) ∷ m) = if k == slot then (k, v) ∷ m else (k, w) ∷ set_slot slot v m

pub record Classified : Type 0 where
  pub claims : Slots
  pub outcomes : Slots

unfoldable pub add_ref : Classified → RefKind × ℕ → Sha → Classified
unfolding set_slot
add_ref c (RefKind.claims, slot) v = record c { claims = set_slot slot v c.claims }
add_ref c (RefKind.outcomes, slot) v = record c { outcomes = set_slot slot v c.outcomes }

unfoldable pub at_target : Option (RefKind × ℕ) → Option Sha → Option ((RefKind × ℕ) × Sha)
at_target none target = none
at_target (some k) none = none
at_target (some k) (some v) = some (k, v)

unfoldable pub parse_entry : Text → RefEntry → Option ((RefKind × ℕ) × Sha)
unfolding parse_ledger_ref at_target
parse_entry namespace r = at_target (parse_ledger_ref namespace r.ref) r.target

unfoldable pub expected : Option ((RefKind × ℕ) × Sha) → Read ((RefKind × ℕ) × Sha)
expected none = malformed
expected (some e) = read_ok e

unfoldable pub collect : Text → Classified → List RefEntry → Read Classified
unfolding parse_entry add_ref expected
collect namespace c [] = read_ok c
collect namespace c (r ∷ rs) = do
  e ← expected (parse_entry namespace r)
  collect namespace (add_ref c e.0 e.1) rs

-- The slots from 1 to `n` are all there.
unfoldable pub has_slots : ℕ → Slots → Bool
unfolding slot_of
has_slots zero m = true
has_slots (suc n) m = has_slots n m && is_some (slot_of (suc n) m)

-- `shapeProblem` finds none.
unfoldable pub has_good_shape : Classified → Bool
unfolding has_slots slot_of
has_good_shape c =
    leb (length c.claims) release_ledger_slots_max
    && has_slots (length c.claims) c.claims
    && all (λ o. is_some (slot_of o.0 c.claims)) c.outcomes

-- `classifyRefs`
unfoldable pub classify_refs : Text → List RefEntry → Read Classified
unfolding collect has_good_shape
classify_refs family refs = do
  c ← collect (ledger_namespace family) (record { claims = []; outcomes = [] }) refs
  guard (has_good_shape c) >>= λ _. read_ok c

pub record EventCommit : Type 0 where
  pub event : Event
  pub commit : Commit

pub record Reservation : Type 0 where
  pub slot : ℕ
  pub sequence : ℕ
  pub claim : EventCommit
  pub terms : Claim
  pub outcome : Option EventCommit

unfoldable pub one_parent : List Sha → Bool
one_parent (p ∷ []) = true
one_parent _ = false

unfoldable pub first_parent : List Sha → Option Sha
first_parent [] = none
first_parent (p ∷ ps) = some p

unfoldable pub sha_eq : Option Sha → Option Sha → Bool
sha_eq none none = true
sha_eq (some a) (some b) = a == b
sha_eq _ _ = false

-- The reservations, the newest first: `reservations.at(-1)`, its claim and its sequence.
unfoldable pub last_claim : List Reservation → Option Sha
last_claim [] = none
last_claim (r ∷ rs) = some r.claim.commit.sha

unfoldable pub highest : List Reservation → ℕ
highest [] = 0
highest (r ∷ rs) = r.sequence

unfoldable pub same_keys : List Text → List Text → Bool
unfolding text_eq
same_keys [] [] = true
same_keys (k ∷ ks) (j ∷ js) = text_eq k j && same_keys ks js
same_keys _ _ = false

-- The keys in an order that depends on the set of them alone.
unfoldable pub insert_key : Text → List Text → List Text
unfolding text_lt
insert_key k [] = k ∷ []
insert_key k (j ∷ js) = if text_lt j k then j ∷ insert_key k js else k ∷ j ∷ js

unfoldable pub sort_keys : List Text → List Text
unfolding insert_key
sort_keys [] = []
sort_keys (k ∷ ks) = insert_key k (sort_keys ks)

unfoldable pub artifacts_match : Body → Claim → Bool
unfolding same_keys sort_keys
artifacts_match (published revision artifacts) c =
    same_keys (sort_keys (keys artifacts)) (sort_keys (keys c.paths))
artifacts_match _ c = true

-- `outcomeFollowsClaim`
unfoldable pub outcome_follows_claim : EventCommit → EventCommit → Claim → Bool
unfolding first_parent sha_eq text_eq artifacts_match
outcome_follows_claim outcome claim terms =
    sha_eq (first_parent outcome.commit.parents) (some claim.commit.sha)
    && (outcome.commit.tree == claim.commit.tree)
    && (outcome.event.sequence == claim.event.sequence)
    && (outcome.event.issue_number == claim.event.issue_number)
    && text_eq outcome.event.idempotency_hash claim.event.idempotency_hash
    && artifacts_match outcome.event.body terms

-- `claim.event`, where it is a `reserved` event.
unfoldable pub terms_of : Body → Option Claim
terms_of (reserved c) = some c
terms_of _ = none

unfoldable pub is_outcome : Body → Bool
is_outcome (reserved c) = false
is_outcome _ = true

unfoldable pub same_identity : Reservation → Reservation → Bool
unfolding text_eq
same_identity r q =
    (r.claim.event.issue_number == q.claim.event.issue_number)
    && text_eq r.claim.event.idempotency_hash q.claim.event.idempotency_hash

unfoldable pub read_terms : Option Claim → Read Claim
read_terms none = malformed
read_terms (some c) = read_ok c

-- The tests on a claim in `readSlot`, with the base commit and the slots before.
unfoldable pub is_linked : EventCommit → Claim → Commit → List Reservation → Bool
unfolding first_parent sha_eq last_claim highest
is_linked claim terms base before =
    sha_eq (first_parent claim.commit.parents) (some terms.base_revision)
    && (claim.commit.tree == base.tree)
    && sha_eq terms.previous_claim (last_claim before)
    && ltb (highest before) claim.event.sequence

unfoldable pub found : Option Commit → Read Commit
found none = unavailable
found (some c) = read_ok c

module _ (codec : Codec) (repository : Text) (family : Text) (commits : Sha → Option Commit) where
  -- `event.family === family` and the other tests of `readEvent` that both kinds share
  unfoldable pub is_event_of : ℕ → Event → Commit → Bool
  unfolding text_eq one_parent
  is_event_of slot e c =
      text_eq e.family family
      && (e.slot == slot)
      && text_eq (codec.to_lower e.repository) (codec.to_lower repository)
      && one_parent c.parents

  unfoldable pub accept_at : ℕ → Commit → Option Event → Read EventCommit
  unfolding is_event_of
  accept_at slot c none = malformed
  accept_at slot c (some e) =
      if is_event_of slot e c then read_ok (record { event = e; commit = c }) else malformed

  unfoldable pub event_at : ℕ → Commit → Read EventCommit
  unfolding parse_release_event_message accept_at
  event_at slot c = accept_at slot c (parse_release_event_message codec c.message)

  unfoldable pub read_commit : Option Sha → Read Commit
  unfolding found
  read_commit none = unavailable
  read_commit (some sha) = found (commits sha)

  -- `readEvent`, before the kind of the event is looked at.
  unfoldable pub read_event : ℕ → Option Sha → Read EventCommit
  unfolding read_commit event_at
  read_event slot sha = do c ← read_commit sha; event_at slot c

  unfoldable pub read_outcome : ℕ → EventCommit → Claim → Option Sha → Read (Option EventCommit)
  unfolding read_event is_outcome outcome_follows_claim
  read_outcome slot claim terms none = read_ok none
  read_outcome slot claim terms (some sha) = do
    outcome ← read_event slot (some sha)
    guard (is_outcome outcome.event.body && outcome_follows_claim outcome claim terms) >>= λ _.
        read_ok (some outcome)

  -- `readSlot`
  unfoldable pub read_slot : ℕ → Option Sha → Option Sha → List Reservation → Read Reservation
  unfolding read_event read_terms terms_of read_commit is_linked read_outcome
  read_slot slot claim_sha outcome_sha before = do
    claim ← read_event slot claim_sha
    terms ← read_terms (terms_of claim.event.body)
    base ← read_commit (some terms.base_revision)
    _ ← guard (is_linked claim terms base before)
    outcome ← read_outcome slot claim terms outcome_sha
    read_ok (record {
      slot = slot;
      sequence = claim.event.sequence;
      claim = claim;
      terms = terms;
      outcome = outcome;
    })

  -- The loop over the slots from 1 to `n`, with what is at each slot.
  unfoldable pub fold_slots : (claim outcome : ℕ → Option Sha) → ℕ → Read (List Reservation)
  unfolding read_slot same_identity
  fold_slots claim outcome zero = read_ok []
  fold_slots claim outcome (suc n) = do
    before ← fold_slots claim outcome n
    r ← read_slot (suc n) (claim (suc n)) (outcome (suc n)) before
    _ ← guard (not (any (same_identity r) before))
    read_ok (r ∷ before)

  -- `foldReleaseLedger`: the reservations, the newest first.
  unfoldable pub fold_release_ledger : List RefEntry → Read (List Reservation)
  unfolding classify_refs fold_slots slot_of
  fold_release_ledger refs = do
    c ← classify_refs family refs
    fold_slots (λ n. slot_of n c.claims) (λ n. slot_of n c.outcomes) (length c.claims)
