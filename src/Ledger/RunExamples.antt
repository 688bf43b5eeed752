-- ===== src/Ledger/RunExamples.antt =====
-- The runs of the release identities at concrete inputs.
use ground_control.Ledger.Calls.{◌>>=◌, Call, Api, create_ledger_ref, done, file, absent}
use ground_control.Prelude.{
  refl, List, Bool, [], false, some, true, Option, ◌≡◌, none, ◌+◌, is_some, if◌then◌else◌, ◌∷◌,
  ◌==◌, length, ap, ◌||◌, sym, ◌∙◌,
}
use ground_control.Prelude.Text.{Text, codes, text_eq, text_eq_refl}
use ground_control.Ledger.Event.{Sha, Message, published, build_release_event_message}
use ground_control.Ledger.Operation.{Context, Reply, branch_matches, parse_text}
use ground_control.Ledger.Fold.{Reservation, is_outcome, RefEntry, Commit, artifacts_match}
use ground_control.Ledger.Reserve.{reserve}
use ground_control.Ledger.Replies.{IsOwn, IsReserveRead, reserve-IsOwn}
use ground_control.Ledger.Transition.{transition, decide, publish_it}
use ground_control.Ledger.Settled.{IsSettledAs, transition-IsSettledAs}
use ground_control.Ledger.Decided.{decide-IsFitting, IsDecided}
use ground_control.Ledger.Creation.{IsTelling, Says, create_ledger_ref-Says}
use ground_control.Ledger.Examples.{caller, base, branch, base_commit}
use ground_control.Ledger.Examples.{first_event, codec, first_message, slug, notes, name, nothing}
use ground_control.Ledger.View.{to_view}
use ground_control.Ledger.Claim.{claim_terms, outcome_event}
use ground_control.Ledger.Race.Slots.{none≢some}
use ground_control.Ledger.Race.Outcomes.{if_true}
use ground_control.Ledger.Validity.{some_inj}

-- A GitHub that keeps references and commits.
record World : Type 0 where
  refs : List RefEntry
  commits : List Commit

abbrev find_ref : Text → List RefEntry → Option Sha
find_ref t [] = none
find_ref t (r ∷ rs) = if text_eq t r.ref then r.target else find_ref t rs

abbrev find_commit : Sha → List Commit → Option Commit
find_commit s [] = none
find_commit s (c ∷ cs) = if c.sha == s then some c else find_commit s cs

abbrev put_commit : Message → Sha → Sha → Call World Sha
put_commit m tree parent w =
    let sha = 300 + length w.commits in
    (
      record {
        refs = w.refs;
        commits = record { sha = sha; message = m; tree = tree; parents = parent ∷ [] } ∷ w.commits;
      },
      some sha,
    )

abbrev put_at : (is_there : Bool) → Text → Sha → Call World (Unit {0})
put_at true t sha w = (w, none)
put_at false t sha w =
    (record { refs = record { ref = t; target = some sha } ∷ w.refs; commits = w.commits }, some tt)

abbrev put_ref : Text → Sha → Call World (Unit {0})
put_ref t sha w = put_at (is_some (find_ref t w.refs)) t sha w

-- The paths of the family are files where `merged`.
abbrev github : (merged : Bool) → Api World
github merged = record {
  list_refs = λ w. (w, some w.refs);
  read_commit = λ w s. find_commit s w.commits;
  create_commit = put_commit;
  create_ref = put_ref;
  read_ref = λ t w. (w, some (find_ref t w.refs));
  read_issue =
      λ n w. (w, some (some (record { number = n; is_pull_request = false; is_open = true })));
  branch_head = λ b w. (w, some (some (record { sha = 100; tree = 200 })));
  lookup_path = λ tree p w.
      (w, some (if text_eq p (codes ".ground-control.yaml") || merged then file 400 else absent));
  read_blob_text = λ s w. (w, some (some (codes "release_families:")));
  read_active_branch = λ w. (w, some (some branch));
  is_trusted_run_branch = λ n b w. (w, some true);
  ensure_records = λ v w. (w, some true);
}

abbrev ctx : Context
ctx = record {
  caller = caller;
  codec = codec;
  reason = none;
  local_families = some (λ t. some notes);
  parse_config = λ t. some (record { github_repo = none; family = some notes });
  is_outside = nothing;
}

abbrev world : World
world = record { refs = []; commits = base_commit ∷ [] }

abbrev reserved_one : Reservation
reserved_one = record {
  slot = 1;
  sequence = 1;
  claim = record {
    event = first_event;
    commit = record { sha = 301; message = first_message; tree = 200; parents = 100 ∷ [] };
  };
  terms = claim_terms codec base [] branch;
  outcome = none;
}

abbrev reserve_reply : Reply
reserve_reply = record { view = to_view slug name reserved_one; reused = false }

abbrev world_after : World
world_after = (reserve (github false) ctx world).0

reserve_test : reserve (github false) ctx world ≡ (world_after, done reserve_reply)
unfolding reserve ◌>>=◌ branch_matches parse_text
reserve_test = refl

reserve-IsOwn_example :
    IsOwn (github false) ctx (IsReserveRead (github false) ctx world) world_after reserve_reply
reserve-IsOwn_example =
    reserve-IsOwn (github false) ctx world world_after reserve_reply reserve_test

abbrev published_one : Reservation
published_one = record reserved_one {
  outcome = some (record {
    event = outcome_event caller reserved_one (published 100 ((codes "page", 400) ∷ []));
    commit = record {
      sha = 302;
      message =
          build_release_event_message codec
            (outcome_event caller reserved_one (published 100 ((codes "page", 400) ∷ [])));
      tree = 200;
      parents = 301 ∷ [];
    };
  });
}

abbrev publish_reply : Reply
publish_reply = record { view = to_view slug name published_one; reused = false }

abbrev published_world : World
published_world = (transition (github true) ctx publish_it world_after).0

publish_test :
    transition (github true) ctx publish_it world_after ≡ (published_world, done publish_reply)
unfolding transition reserve ◌>>=◌ branch_matches parse_text
publish_test = refl

transition-IsSettledAs_example :
    IsSettledAs (github true) ctx publish_it world_after published_world publish_reply
transition-IsSettledAs_example =
    transition-IsSettledAs (github true) ctx publish_it world_after published_world publish_reply
      publish_test

decide_test :
    decide (github true) ctx publish_it reserved_one world
    ≡ (world, done (published 100 ((codes "page", 400) ∷ [])))
unfolding decide ◌>>=◌ claim_terms
decide_test = refl

decide-IsFitting_example :
    (is_outcome (published 100 ((codes "page", 400) ∷ [])) ≡ true)
    × (artifacts_match (published 100 ((codes "page", 400) ∷ [])) reserved_one.terms ≡ true)
    × IsDecided
        (github true)
        ctx
        publish_it
        reserved_one
        world
        world
        (published 100 ((codes "page", 400) ∷ []))
decide-IsFitting_example =
    decide-IsFitting (github true) ctx publish_it reserved_one world world
      (published 100 ((codes "page", 400) ∷ [])) decide_test

abbrev ref_in : World → Text → Option Sha
ref_in w t = find_ref t w.refs

put_ref_lem :
    (b : Bool) (t : Text) (sha : Sha) (w w' : World) (u : Unit {0})
    → put_at b t sha w ≡ (w', some u)
    → ref_in w' t ≡ some sha
put_ref_lem true t sha w w' u h = absurd (none≢some u (ap (λ x. x.1) h))
put_ref_lem false t sha w w' u h =
    ap (λ x. ref_in x.0 t) (sym h)
    ∙ if_true (text_eq t t) (some sha) (find_ref t w.refs) (text_eq_refl t)

telling : IsTelling (github false) ref_in
telling = record {
  creates = λ t sha w w' u h. put_ref_lem (is_some (find_ref t w.refs)) t sha w w' u h;
  reads = λ t w w' v h. ap (λ x. ref_in x.0 t) (sym h) ∙ some_inj (ref_in w t) v (ap (λ x. x.1) h);
}

create_ledger_ref-Says_example :
    Says
      (create_ledger_ref (github false) (codes "refs/a") 300 world).1
      300
      (ref_in (create_ledger_ref (github false) (codes "refs/a") 300 world).0 (codes "refs/a"))
create_ledger_ref-Says_example =
    create_ledger_ref-Says (github false) ref_in telling (codes "refs/a") 300 world
