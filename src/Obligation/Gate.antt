-- ===== src/Obligation/Gate.antt =====
-- What closes an obligation (mcp/ground-control/lib/codex-workflow.js), and what makes the thread
-- clear.
use ground_control.Obligation.Replay.{
  Event, resolved, State, is_open_status, replay_state, station_observation, problem, is_open,
  is_resolved, opened_state, is_terminal_resolution, cycle_eq, reobserved, opened, lookup,
  insert_sorted, sort_entries, clear, EventKind, open_entries, is_empty, open_obligations, States,
  replay, fix, escalated,
}
use ground_control.Prelude.{
  Option, ◌≡◌, ℕ, some, true, arith, ◌≢◌, is_some, none, List, Bool-cases, All, ◌++◌, inr, ◌∷◌,
  false, [], inl, ◌∙◌, refl, if◌then◌else◌,
}
use ground_control.Prelude.Text.{option_eq_iff, Text, text_eq, text_eq_refl}
use ground_control.Obligation.Locality.{replay_one, lookup-replay}

-- `e` attests the observation that `s` waits for.
pub record Attests (s : State) (e : Event) : Type 0 where
  pub resolves : e.event ≡ resolved
  pub says_reobserved : e.disposition ≡ some reobserved
  pub second_schema : (s.schema_version ≡ 2) × (e.schema_version ≡ 2)
  pub about_station : e.kind ≡ station_observation
  pub same_station : e.station ≡ s.station
  pub same_cycle : e.cycle ≡ s.cycle
  pub has_record : is_some e.observation_record_id ≡ true

cycle_eq→eq : (a b : Option ℕ) → cycle_eq a b ≡ true → a ≡ b
unfolding cycle_eq
cycle_eq→eq a b h = ground arith

-- An open station observation is resolved only by an event that attests it: a resolution of the
-- second schema with the disposition `reobserved`, for the same station and cycle, that names an
-- observation record.
pub station_resolution :
    (s t : State) (e : Event)
    → s.kind ≡ station_observation
    → s.status ≡ is_open
    → replay_state e.event e (some s) ≡ some t
    → t.status ≡ is_resolved
    → Attests s e
unfolding replay_state opened_state is_open_status is_terminal_resolution
station_resolution s t e k open_ h r =
    ground (arith, option_eq_iff e.station s.station, cycle_eq→eq e.cycle s.cycle)

-- A problem obligation is resolved only by `fix`, `wontfix` or `not-applicable`, never by the claim
-- that a gate was observed again.
pub problem_resolution :
    (s t : State) (e : Event)
    → s.kind ≡ problem
    → s.status ≡ is_open
    → replay_state e.event e (some s) ≡ some t
    → t.status ≡ is_resolved
    → (e.event ≡ resolved)
      × (e.disposition ≢ some reobserved)
      × (e.disposition ≢ none)
      × (t.disposition ≡ e.disposition)
unfolding replay_state opened_state is_open_status is_terminal_resolution
problem_resolution s t e k open_ h r = ground arith

-- An event that neither opens its obligation anew nor attests the observation of `s`.
abbrev pub Leaves : Text → State → Event → Type 0
Leaves id s e = text_eq e.obligation_id id ≡ true → (e.event ≢ opened) × (¬ Attests s e)

abbrev pub IsWaiting : State → State → Type 0
IsWaiting s t =
    (t.kind ≡ station_observation)
    × (t.status ≡ is_open)
    × (t.schema_version ≡ s.schema_version)
    × (t.station ≡ s.station)
    × (t.cycle ≡ s.cycle)

one_event :
    (s : State) (e : Event)
    → s.kind ≡ station_observation
    → s.status ≡ is_open
    → e.event ≢ opened
    → ¬ Attests s e
    → (t : State) × (replay_state e.event e (some s) ≡ some t) × IsWaiting s t
unfolding replay_state is_open_status
one_event s e k open_ notopened unattested = by_event e.event refl
  where
    by_event :
        (v : EventKind)
        → e.event ≡ v
        → (t : State) × (replay_state v e (some s) ≡ some t) × IsWaiting s t
    by_event opened h = absurd (notopened h)
    by_event escalated h = (
      record s { status = is_open; disposition = none },
      ground arith,
      (k, refl, refl, refl, refl),
    )
    by_event resolved h = elim (Bool-cases (is_terminal_resolution s e)) [
      | inr stays ↦ (s, ground arith, (k, open_, refl, refl, refl))
      | inl closes ↦
          let t : State = record s { status = is_resolved; disposition = e.disposition } in
          absurd (unattested (station_resolution s t e k open_ (rw h (ground arith)) refl))
    ]

Attests-same : (s r : State) (e : Event) → IsWaiting s r → Attests r e → Attests s e
Attests-same s r e w a = ground arith

IsWaiting-trans : (s r t : State) → IsWaiting s r → IsWaiting r t → IsWaiting s t
IsWaiting-trans s r t w u = ground arith

replay_one_waits :
    (id : Text) (s r : State) (es : List Event)
    → IsWaiting s r
    → All (Leaves id s) es
    → (t : State) × (replay_one id (some r) es ≡ some t) × IsWaiting s t
unfolding replay_one
replay_one_waits id s r [] w h = (r, refl, w)
replay_one_waits id s r (e ∷ es) w h = elim (Bool-cases (text_eq e.obligation_id id)) [
  | inr other ↦ rw other (replay_one_waits id s r es w h.1)
  | inl named ↦
      let (notopened, unattested) = h.0 named in
      let (t, next, u) =
        one_event r e w.0 w.1 notopened (λ a. unattested (Attests-same s r e w a)) in
      rw (named, next) (replay_one_waits id s t es (IsWaiting-trans s r t w u) h.1)
]

lookup_open :
    (id : Text) (t : State) (m : States)
    → lookup id m ≡ some t
    → t.status ≡ is_open
    → is_empty (open_entries m) ≡ false
unfolding lookup open_entries is_empty is_open_status
lookup_open id t [] h o = cc
lookup_open id t ((k, v) ∷ m) h o = ground (arith, lookup_open id t m)

insert_empty : (e : Text × State) (m : States) → is_empty (insert_sorted e m) ≡ false
unfolding insert_sorted is_empty
insert_empty (k, v) [] = refl
insert_empty (k, v) ((j, w) ∷ m) = ground arith

sort_entries_empty : (m : States) → is_empty (sort_entries m) ≡ is_empty m
unfolding sort_entries insert_sorted is_empty
sort_entries_empty [] = refl
sort_entries_empty (e ∷ m) = insert_empty e (sort_entries m)

-- A thread is clear only if every obligation in it is resolved.
pub clear-resolved :
    (es : List Event) (id : Text) (t : State)
    → clear es ≡ true
    → lookup id (replay [] es) ≡ some t
    → t.status ≡ is_resolved
unfolding clear open_obligations
clear-resolved es id t h found =
    ground (
      arith,
      sort_entries_empty (open_entries (replay [] es)),
      lookup_open id t (replay [] es) found,
    )

still_open : (t : State) → t.status ≡ is_open → t.status ≡ is_resolved → ⊥
still_open t a b = ground arith

replay_one-append :
    (id : Text) (current : Option State) (xs ys : List Event)
    → replay_one id current (xs ++ ys) ≡ replay_one id (replay_one id current xs) ys
unfolding replay_one
replay_one-append id current [] ys = refl
replay_one-append id current (x ∷ xs) ys =
    replay_one-append id
      (if text_eq x.obligation_id id then replay_state x.event x current else current) xs ys

-- A thread in which a station observation is opened stays blocked, whatever came before, as long as
-- no later event opens this obligation anew or attests the observation.
pub unattested_blocks :
    (before after : List Event) (e : Event)
    → e.event ≡ opened
    → e.kind ≡ station_observation
    → All (Leaves e.obligation_id (opened_state e)) after
    → clear (before ++ e ∷ after) ≡ false
unfolding opened_state replay_one replay_state
unattested_blocks before after e o k h =
    let id = e.obligation_id in
    let s = opened_state e in
    let (t, ends, w) = replay_one_waits id s s after (k, refl, refl, refl, refl) h in
    let found : lookup id (replay [] (before ++ e ∷ after)) ≡ some t =
      lookup-replay id [] (before ++ e ∷ after)
      ∙ replay_one-append id (lookup id []) before (e ∷ after)
      ∙ rw (text_eq_refl id, o) ends in
    elim (Bool-cases (clear (before ++ e ∷ after))) [
      | inr blocked ↦ blocked
      | inl passed ↦
          absurd (still_open t w.1 (clear-resolved (before ++ e ∷ after) id t passed found))
    ]

-- Opening a station observation anew as a problem obligation, and then resolving that with `fix`,
-- leaves the obligation resolved, whatever the thread was before: no attestation is asked for.
pub reopened_fix :
    (before : List Event) (e f : Event)
    → e.event ≡ opened
    → e.kind ≡ problem
    → f.event ≡ resolved
    → f.obligation_id ≡ e.obligation_id
    → f.disposition ≡ some fix
    → (t : State) × (lookup e.obligation_id (replay [] (before ++ e ∷ f ∷ [])) ≡ some t)
      × (t.status ≡ is_resolved)
unfolding opened_state replay_one replay_state is_open_status is_terminal_resolution
reopened_fix before e f o k r same fixes =
    let id = e.obligation_id in
    let t : State = record (opened_state e) { status = is_resolved; disposition = f.disposition } in
    (
      t,
      lookup-replay id [] (before ++ e ∷ f ∷ [])
          ∙ replay_one-append id (lookup id []) before (e ∷ f ∷ [])
          ∙ ground (arith, text_eq_refl id),
      refl,
    )
