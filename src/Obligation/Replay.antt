-- ===== src/Obligation/Replay.antt =====
-- `evaluateExecutionObligations` of mcp/ground-control/lib/codex-workflow.js, with
-- `canReobservationClose` of mcp/ground-control/lib/execution-obligation-v2.js: the markers of an
-- issue thread are replayed to the obligations that are still open.
use ground_control.Prelude.{
  ℕ, Bool, true, false, ◌&&◌, Option, none, some, List, [], ◌∷◌, if◌then◌else◌, ◌==◌, is_some,
}
use ground_control.Prelude.Text.{Text, text_eq, option_eq, text_lt}

pub data EventKind : Type 0 where
  opened escalated resolved : EventKind

-- `kind`: a problem obligation has none.
pub data Kind : Type 0 where
  problem station_observation : Kind

pub data Disposition : Type 0 where
  fix wontfix not_applicable reobserved : Disposition

pub record Event : Type 0 where
  pub obligation_id : Text
  pub event : EventKind
  pub schema_version : ℕ
  pub kind : Kind
  pub station : Option Text
  pub cycle : Option ℕ
  pub disposition : Option Disposition
  pub observation_record_id : Option ℕ

pub data Status : Type 0 where
  is_open is_resolved : Status

pub record State : Type 0 where
  pub status : Status
  pub disposition : Option Disposition
  pub schema_version : ℕ
  pub kind : Kind
  pub station : Option Text
  pub cycle : Option ℕ

unfoldable pub is_open_status : Status → Bool
is_open_status is_open = true
is_open_status is_resolved = false

unfoldable pub is_station : Kind → Bool
is_station station_observation = true
is_station problem = false

unfoldable pub cycle_eq : Option ℕ → Option ℕ → Bool
cycle_eq none none = true
cycle_eq (some a) (some b) = a == b
cycle_eq _ _ = false

-- `canReobservationClose`
unfoldable pub can_reobservation_close : State → Event → Bool
unfolding is_station option_eq cycle_eq
can_reobservation_close current e =
    is_station current.kind
    && (current.schema_version == 2)
    && (e.schema_version == 2)
    && is_station e.kind
    && option_eq e.station current.station
    && cycle_eq e.cycle current.cycle
    && is_some e.observation_record_id

unfoldable pub is_reobserved : Option Disposition → Bool
is_reobserved (some reobserved) = true
is_reobserved _ = false

-- `EXECUTION_OBLIGATION_DISPOSITIONS.includes`
unfoldable pub is_agent_disposition : Option Disposition → Bool
is_agent_disposition (some fix) = true
is_agent_disposition (some wontfix) = true
is_agent_disposition (some not_applicable) = true
is_agent_disposition _ = false

-- `isTerminalObligationResolution`
unfoldable pub is_terminal_resolution : State → Event → Bool
unfolding can_reobservation_close is_reobserved is_agent_disposition
is_terminal_resolution current e =
    if is_station current.kind
    then is_reobserved e.disposition && can_reobservation_close current e
    else is_agent_disposition e.disposition

unfoldable pub opened_state : Event → State
opened_state e = record {
  status = is_open;
  disposition = none;
  schema_version = e.schema_version;
  kind = e.kind;
  station = e.station;
  cycle = e.cycle;
}

-- What one event makes of its obligation; `none` for an obligation that is not in the map.
unfoldable pub replay_state : EventKind → Event → Option State → Option State
unfolding opened_state is_terminal_resolution is_open_status
replay_state opened e current = some (opened_state e)
replay_state _ e none = none
replay_state escalated e (some current) =
    if is_open_status current.status
    then some (record current { status = is_open; disposition = none })
    else some current
replay_state resolved e (some current) =
    if is_open_status current.status && is_terminal_resolution current e
    then some (record current { status = is_resolved; disposition = e.disposition })
    else some current

-- The `Map`, in the order of insertion.
abbrev pub States : Type 0
States = List (Text × State)

unfoldable pub lookup : Text → States → Option State
unfolding text_eq
lookup id [] = none
lookup id ((k, v) ∷ m) = if text_eq k id then some v else lookup id m

unfoldable pub put : Text → State → States → States
unfolding text_eq
put id v [] = (id, v) ∷ []
put id v ((k, w) ∷ m) = if text_eq k id then (k, v) ∷ m else (k, w) ∷ put id v m

unfoldable pub put_state : Text → Option State → States → States
unfolding put
put_state id none m = m
put_state id (some v) m = put id v m

unfoldable pub replay_event : States → Event → States
unfolding replay_state lookup put_state
replay_event m e = put_state e.obligation_id (replay_state e.event e (lookup e.obligation_id m)) m

-- The loop over the events.
unfoldable pub replay : States → List Event → States
unfolding replay_event
replay m [] = m
replay m (e ∷ es) = replay (replay_event m e) es

unfoldable pub open_entries : States → States
unfolding is_open_status
open_entries [] = []
open_entries ((k, v) ∷ m) =
    if is_open_status v.status then (k, v) ∷ open_entries m else open_entries m

-- The `sort` by obligation id.
unfoldable pub insert_sorted : Text × State → States → States
unfolding text_lt
insert_sorted (k, v) [] = (k, v) ∷ []
insert_sorted (k, v) ((j, w) ∷ m) =
    if text_lt j k then (j, w) ∷ insert_sorted (k, v) m else (k, v) ∷ (j, w) ∷ m

unfoldable pub sort_entries : States → States
unfolding insert_sorted
sort_entries [] = []
sort_entries (e ∷ m) = insert_sorted e (sort_entries m)

-- The `open_obligations` of the result; its `open_obligation_ids` are their first parts.
unfoldable pub open_obligations : List Event → States
unfolding replay open_entries sort_entries
open_obligations es = sort_entries (open_entries (replay [] es))

unfoldable pub is_empty : States → Bool
is_empty [] = true
is_empty (e ∷ m) = false

-- `clear`
unfoldable pub clear : List Event → Bool
unfolding open_obligations is_empty
clear es = is_empty (open_obligations es)
