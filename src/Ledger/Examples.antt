-- ===== src/Ledger/Examples.antt =====
-- The theorems on the release identities at concrete inputs.
use ground_control.Prelude.{
  Bool, false, ◌≡◌, [], ◌∷◌, true, refl, List, some, Option, none, if◌then◌else◌, ◌==◌, map, ◌++◌,
  ◌≤◌, ◌<◌, arith, length,
}
use ground_control.Ledger.Fold.{
  Commit, Reservation, read_ok, slot_of, is_outcome, artifacts_match, fold_release_ledger,
  Classified, classify_refs, collect,
}
use ground_control.Prelude.Text.{Text, codes}
use ground_control.Ledger.Event.{
  Codec, Event, Message, build_release_event_message, build_validated_message, Body, Sha, published,
}
use ground_control.Ledger.Family.{Family, is_normal_family}
use ground_control.Ledger.Claim.{
  Caller, Base, plan_claim, claim_event, claim_with, outcome_event, claim_terms, owned_by,
}
use ground_control.Ledger.Race.{
  Repo, log_of, Claiming, Settling, add_claim, add_outcome, one_more, start, new_outcome, new_claim,
}
use ground_control.Ledger.Race.Safety.{Later-refl, log_of-Steps}
use ground_control.Ledger.Log.{IsLog}
use ground_control.Ledger.Race.Winner.{owned_by-Steps}
use ground_control.Ledger.Bare.{bare}
use ground_control.Ledger.Names.{parse_ledger_ref, ledger_namespace, release_ledger_ref, RefKind}
use ground_control.Ledger.RefNames.{parse_ledger_ref-release_ledger_ref}
use ground_control.Ledger.Validity.{fold_release_ledger-IsLog}
use ground_control.Ledger.Race.References.{
  entries, add_entry, no_refs, fold_release_ledger-add_entry,
}

abbrev pub name : Text
name = codes "notes"

abbrev pub hash : Text
hash = codes "0123456789abcdef0123456789abcdef0123456789abcdef0123456789abcdef"

abbrev pub slug : Text
slug = codes "owner/repo"

abbrev pub codec : Codec
codec = record { message_size = λ e. 900; family_digest = λ f. hash; to_lower = λ t. t }

abbrev pub notes : Family
notes = record {
  base_branch = codes "dev";
  sequence_floor = 1;
  version_template = codes "v{sequence}";
  paths = (codes "page", codes "docs/{version}.md") ∷ [];
}

abbrev pub caller : Caller
caller = record { repository = slug; family = name; issue_number = 7; idempotency_hash = hash }

abbrev pub base : Base
base = record { head = 100; tree = 200; family = notes }

abbrev pub branch : Text
branch = codes "7-notes"

abbrev pub nothing : {A : Type 0} → A → Bool
nothing a = false

abbrev pub first_event : Event
first_event = claim_event codec caller base [] branch

abbrev pub first_message : Message
first_message = build_release_event_message codec first_event

family_test : is_normal_family name notes ≡ true
unfolding is_normal_family
family_test = refl

plan_test :
    plan_claim codec nothing nothing caller base [] branch ≡ claim_with first_event first_message
unfolding plan_claim
plan_test = refl

built_test : build_validated_message codec first_event ≡ some first_message
unfolding build_validated_message claim_event
built_test = refl

abbrev pub base_commit : Commit
base_commit = record { sha = 100; message = first_message; tree = 200; parents = [] }

abbrev pub claim_commit : Commit
claim_commit = record { sha = 300; message = first_message; tree = 200; parents = 100 ∷ [] }

abbrev pub mine : Reservation
mine = record {
  slot = 1;
  sequence = 1;
  claim = record { event = first_event; commit = claim_commit };
  terms = claim_terms codec base [] branch;
  outcome = none;
}

abbrev pub publication : Body
publication = published 100 ((codes "page", 400) ∷ [])

abbrev pub publication_message : Message
publication_message = build_release_event_message codec (outcome_event caller mine publication)

abbrev pub outcome_commit : Commit
outcome_commit = record { sha = 500; message = publication_message; tree = 200; parents = 300 ∷ [] }

abbrev pub store : Sha → Option Commit
store n =
    if n == 100
    then some base_commit
    else if n == 300
    then some claim_commit
    else if n == 500
    then some outcome_commit
    else none

abbrev pub empty : Repo
empty = record { refs = record { claims = []; outcomes = [] }; commits = store }

abbrev pub with_claim : Repo
with_claim = add_claim 1 300 empty

empty_test : log_of codec slug name empty ≡ read_ok []
unfolding log_of
empty_test = refl

claim_test : log_of codec slug name with_claim ≡ read_ok (mine ∷ [])
unfolding log_of add_claim build_release_event_message claim_event
claim_test = refl

abbrev claiming : Claiming codec slug name empty 1 300
unfolding owned_by claim_event slot_of
claiming = record {
  seen = empty;
  later = Later-refl empty;
  before = [];
  seen_log = empty_test;
  caller = caller;
  for_repository = refl;
  for_family = refl;
  owns_none = refl;
  base = base;
  branch = branch;
  is_outside = nothing;
  is_taken = nothing;
  event = first_event;
  message = first_message;
  planned = plan_test;
  at_slot = refl;
  base_commit = base_commit;
  base_stored = refl;
  base_tree = refl;
  written = record {
    commit = claim_commit;
    stored = refl;
    has_message = refl;
    has_tree = refl;
    has_parent = refl;
  };
  is_free = refl;
}

publication_test :
    build_validated_message codec (outcome_event caller mine publication) ≡ some publication_message
unfolding build_validated_message outcome_event claim_event
publication_test = refl

abbrev settling : Settling codec slug name with_claim 1 500
unfolding owned_by claim_event is_outcome artifacts_match add_claim slot_of
settling = record {
  seen = with_claim;
  later = Later-refl with_claim;
  before = mine ∷ [];
  seen_log = claim_test;
  caller = caller;
  for_repository = refl;
  for_family = refl;
  mine = mine;
  owns = refl;
  body = publication;
  decided = refl;
  matched = refl;
  message = publication_message;
  built = publication_test;
  at_slot = refl;
  written = record {
    commit = outcome_commit;
    stored = refl;
    has_message = refl;
    has_tree = refl;
    has_parent = refl;
  };
  is_free = refl;
}

log_of-Steps_example :
    (qs : List Reservation) × (new : List Reservation) × (log_of codec slug name
        (add_outcome 1 500 with_claim)
      ≡ read_ok qs)
    × IsLog qs
    × (map bare qs ≡ new ++ [])
log_of-Steps_example =
    log_of-Steps codec slug name empty (add_outcome 1 500 with_claim) [] empty_test
      (one_more (one_more start (new_claim claiming)) (new_outcome settling))

owned_by-Steps_example :
    (qs : List Reservation) × (own : Reservation) × (log_of codec slug name
        (add_outcome 1 500 with_claim)
      ≡ read_ok qs)
    × (owned_by caller qs ≡ some own)
    × (own.claim.event ≡ first_event)
unfolding claiming claim_event
owned_by-Steps_example =
    owned_by-Steps codec slug name empty (add_outcome 1 500 with_claim) [] 1 300 empty_test claiming
      (one_more start (new_outcome settling))

ten_thousand : 1 ≤ 10000
ten_thousand = omega arith

small : 10000 < 100000
small = omega arith

parse_ledger_ref-release_ledger_ref_example :
    parse_ledger_ref (ledger_namespace name) (release_ledger_ref name RefKind.claims 10000)
    ≡ some (RefKind.claims, 10000)
parse_ledger_ref-release_ledger_ref_example =
    parse_ledger_ref-release_ledger_ref name RefKind.claims 10000 ten_thousand small

fold_refs_test :
    fold_release_ledger codec slug name store
      (record { ref = release_ledger_ref name RefKind.claims 1; target = some 300 } ∷ [])
    ≡ read_ok (mine ∷ [])
unfolding fold_release_ledger release_ledger_ref build_release_event_message claim_event
fold_refs_test = refl

fold_release_ledger-IsLog_example :
    IsLog (mine ∷ [])
    × ((c : Classified) × (classify_refs name
            (record { ref = release_ledger_ref name RefKind.claims 1; target = some 300 } ∷ [])
          ≡ read_ok c)
        × (length (mine ∷ []) ≡ length c.claims))
fold_release_ledger-IsLog_example =
    fold_release_ledger-IsLog codec slug name store
      (record { ref = release_ledger_ref name RefKind.claims 1; target = some 300 } ∷ [])
      (mine ∷ []) fold_refs_test

listed_test :
    collect
      (ledger_namespace name)
      no_refs
      (record { ref = release_ledger_ref name RefKind.claims 1; target = some 300 } ∷ [])
    ≡ read_ok with_claim.refs
unfolding collect release_ledger_ref add_claim
listed_test = refl

free_test : slot_of 1 (entries RefKind.outcomes with_claim.refs) ≡ none
unfolding entries add_claim slot_of
free_test = refl

one : 1 ≤ 1
one = omega arith

below : 1 < 100000
below = omega arith

fold_release_ledger-add_entry_example :
    fold_release_ledger codec slug name store (
      record { ref = release_ledger_ref name RefKind.claims 1; target = some 300 }
      ∷ record { ref = release_ledger_ref name RefKind.outcomes 1; target = some 500 }
      ∷ [])
    ≡ log_of codec slug name
        (add_entry RefKind.outcomes 1 500 (record { refs = with_claim.refs; commits = store }))
fold_release_ledger-add_entry_example =
    fold_release_ledger-add_entry codec slug name store
      (record { ref = release_ledger_ref name RefKind.claims 1; target = some 300 } ∷ [])
      with_claim.refs RefKind.outcomes 1 500 listed_test free_test one below
