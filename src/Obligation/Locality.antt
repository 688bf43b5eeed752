-- ===== src/Obligation/Locality.antt =====
-- The replay of an issue thread, obligation by obligation (mcp/ground-control/lib/codex-workflow.js).
use ground_control.Prelude.{
  Option, none, some, List, [], ◌∷◌, ◌≡◌, refl, ◌∙◌, arith, if◌then◌else◌, ap,
}
use ground_control.Prelude.Text.{Text, text_eq, text_eq_iff}
use ground_control.Obligation.Replay.{
  Event, State, States, replay_state, lookup, put, put_state, replay_event, replay, EventKind,
  opened, escalated, resolved,
}

lookup-put :
    (id j : Text) (v : State) (m : States)
    → lookup j (put id v m) ≡ (if text_eq id j then some v else lookup j m)
unfolding lookup put
lookup-put id j v [] = refl
lookup-put id j v ((k, w) ∷ m) =
    ground (arith, text_eq_iff k id, text_eq_iff k j, text_eq_iff id j, lookup-put id j v m)

replay_state-none :
    (k : EventKind) (e : Event) (current : Option State)
    → replay_state k e current ≡ none
    → current ≡ none
unfolding replay_state
replay_state-none opened e current h = cc
replay_state-none escalated e none h = refl
replay_state-none escalated e (some s) h = ground arith
replay_state-none resolved e none h = refl
replay_state-none resolved e (some s) h = ground arith

put_result :
    (id j : Text) (v : Option State) (m : States)
    → (v ≡ none → lookup id m ≡ none)
    → lookup j (put_state id v m) ≡ (if text_eq id j then v else lookup j m)
unfolding put_state
put_result id j none m gone = ground (arith, text_eq_iff id j, gone refl)
put_result id j (some v) m gone = lookup-put id j v m

-- One event changes the state of its own obligation only.
pub lookup-replay_event :
    (j : Text) (m : States) (e : Event)
    → lookup j (replay_event m e)
      ≡ (if text_eq e.obligation_id j then replay_state e.event e (lookup j m) else lookup j m)
unfolding replay_event
lookup-replay_event j m e =
    let id = e.obligation_id in
    let next = replay_state e.event e (lookup id m) in
    ground
      (arith, text_eq_iff id j, put_result id j next m (replay_state-none e.event e (lookup id m)))

-- The states of one obligation, along the events that name it.
unfoldable pub replay_one : Text → Option State → List Event → Option State
unfolding replay_state
replay_one id current [] = current
replay_one id current (e ∷ es) =
    replay_one id (if text_eq e.obligation_id id then replay_state e.event e current else current)
      es

-- The map that the loop builds holds, for every obligation, what the events that name this
-- obligation make of its state, whatever the other events of the thread are.
pub lookup-replay :
    (id : Text) (m : States) (es : List Event)
    → lookup id (replay m es) ≡ replay_one id (lookup id m) es
unfolding replay replay_one
lookup-replay id m [] = refl
lookup-replay id m (e ∷ es) =
    lookup-replay id (replay_event m e) es
    ∙ ap (λ s. replay_one id s es) (lookup-replay_event id m e)
