-- ===== src/Obligation/Examples.antt =====
-- The theorems on the execution obligations at concrete inputs.

use ground_control.Obligation.Replay.{
  Event, opened, fix, resolved, State, lookup, clear, problem, opened_state, reobserved,
  is_resolved, replay, station_observation, replay_state,
}
use ground_control.Obligation.Gate.{
  Attests, station_resolution, clear-resolved, problem_resolution, reopened_fix, unattested_blocks,
}
use ground_control.Obligation.Reobservation.{Comment, is_by, has_verified_reobservation}
use ground_control.Prelude.Text.{codes}
use ground_control.Prelude.{some, find, none, ◌≡◌, ◌∷◌, ◌==◌, [], ◌≢◌, ◌++◌, false, true, refl}
use ground_control.Obligation.Locality.{replay_one, lookup-replay}
use ground_control.Obligation.Trust.{verified_evidence}

abbrev observation : Event
observation = record {
  obligation_id = codes "gate-1";
  event = opened;
  schema_version = 2;
  kind = station_observation;
  station = some (codes "ci");
  cycle = some 1;
  disposition = none;
  observation_record_id = none;
}

abbrev defect : Event
defect = record observation { schema_version = 1; kind = problem; station = none; cycle = none }

abbrev attested : Event
attested = record observation {
  event = resolved;
  disposition = some reobserved;
  observation_record_id = some 77;
}

abbrev fixed : Event
fixed = record defect { event = resolved; disposition = some fix }

abbrev closed : State
closed = record (opened_state observation) { status = is_resolved; disposition = some reobserved }

abbrev repaired : State
repaired = record (opened_state defect) { status = is_resolved; disposition = some fix }

lookup-replay_example :
    lookup (codes "gate-1") (replay [] (observation ∷ attested ∷ []))
    ≡ replay_one (codes "gate-1") (lookup (codes "gate-1") []) (observation ∷ attested ∷ [])
lookup-replay_example = lookup-replay (codes "gate-1") [] (observation ∷ attested ∷ [])

station_resolution_example : Attests (opened_state observation) attested
unfolding opened_state replay_state
station_resolution_example =
    station_resolution (opened_state observation) closed attested refl refl refl refl

problem_resolution_example :
    (fixed.event ≡ resolved)
    × (fixed.disposition ≢ some reobserved)
    × (fixed.disposition ≢ none)
    × (repaired.disposition ≡ fixed.disposition)
unfolding opened_state replay_state
problem_resolution_example =
    problem_resolution (opened_state defect) repaired fixed refl refl refl refl

clear-resolved_example : closed.status ≡ is_resolved
unfolding clear
clear-resolved_example =
    clear-resolved (observation ∷ attested ∷ []) (codes "gate-1") closed refl refl

unattested_blocks_example : clear ((defect ∷ []) ++ observation ∷ fixed ∷ []) ≡ false
unattested_blocks_example =
    unattested_blocks (defect ∷ []) (fixed ∷ []) observation refl refl
      ((λ _. ((λ e. cc), (λ a. cc (a.says_reobserved)))), tt)

reopened_fix_example :
    (t : State) × (lookup (codes "gate-1") (replay [] ((observation ∷ []) ++ defect ∷ fixed ∷ []))
      ≡ some t)
    × (t.status ≡ is_resolved)
reopened_fix_example = reopened_fix (observation ∷ []) defect fixed refl refl refl refl refl

abbrev record_comment : Comment
record_comment = record { id = 77; author_login = some (codes "bot") }

abbrev marker : Comment
marker = record { id = 78; author_login = some (codes "bot") }

verified_evidence_example :
    (c : Comment) × (find (λ d. d.id == c.id) (record_comment ∷ marker ∷ []) ≡ some c)
    × (some 77 ≡ some c.id)
    × (c.id ≢ marker.id)
    × (is_by (λ t. t) (codes "bot") c.author_login ≡ true)
    × (is_by (λ t. t) (codes "bot") marker.author_login ≡ true)
unfolding has_verified_reobservation
verified_evidence_example =
    verified_evidence (λ t. t) (some 77) marker (record_comment ∷ marker ∷ []) (codes "bot") refl
