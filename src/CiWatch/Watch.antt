-- ===== src/CiWatch/Watch.antt =====
-- The poll loop of `runWatchCiRun` in mcp/ground-control/lib/ci-watcher.js.
use ground_control.Prelude.{
  ℕ, zero, suc, ◌-◌, ◌/◌, Bool, false, not, ◌||◌, Option, none, some, List, [], ◌∷◌, ◌++◌,
  if◌then◌else◌, leb, ◌==◌, any, find, filter,
}
use ground_control.Prelude.Text.{Text}
use ground_control.CiWatch.Run.{
  Snapshot, Observed, ListedRun, is_completed, is_failed_run, is_failed_job, queued_seconds,
  evaluate_poll, PollAction, queued_too_long, watch_timed_out, responsible, select_runs,
  database_ids, has_head,
}

pub record Settings : Type 0 where
  pub start_ms : ℕ
  pub deadline_ms : ℕ
  pub queued_timeout : ℕ
  pub total_timeout : ℕ
  pub head : Option Text

-- What one round of the loop reads: the clock before the listing, the listing (none if it failed),
-- the snapshot of each run (none if it failed), and the clock after the snapshots.
pub record Tick : Type 0 where
  pub before_ms : ℕ
  pub listed : Option (List ListedRun)
  pub snapshot : ℕ → Option Snapshot
  pub after_ms : ℕ

pub data Verdict : Type 0 where
  succeeded : List Observed → Verdict
  concluded : (run : Observed) (observed : List Observed) → Verdict
  failed_early : (run : Observed) (observed : List Observed) → Verdict
  stuck_in_queue : (run : Observed) → Verdict
  out_of_time : (run : Observed) → Verdict
  lookup_failed : Verdict
  snapshot_failed : (run_id : ℕ) → Verdict
  head_mismatch : (run_id : ℕ) → Verdict

pub record Loop : Type 0 where
  pub watched : List ℕ
  pub first_queued : List (ℕ × ℕ)
  pub discovery_closed : Bool

unfoldable pub includes : List ℕ → ℕ → Bool
includes ids id = any (λ n. n == id) ids

-- A run that has registered since joins the watch.
unfoldable pub join : List ℕ → List ℕ → List ℕ
unfolding includes
join watched [] = watched
join watched (id ∷ ids) = join (if includes watched id then watched else watched ++ id ∷ []) ids

unfoldable pub head_of : Option Text → Text
head_of none = []
head_of (some sha) = sha

unfoldable pub discover_ids : Settings → Loop → Tick → List ListedRun → Loop
unfolding join head_of
discover_ids c l t runs = record l {
  watched = join l.watched (database_ids (select_runs runs (head_of c.head)));
  discovery_closed = leb c.deadline_ms t.before_ms;
}

-- The listing at the head of a round, while the registration window is open.
unfoldable pub discover : Settings → Loop → Tick → Option Loop
unfolding discover_ids
discover c l t =
    if l.discovery_closed
    then some l
    else elim t.listed [ none ↦ none | some runs ↦ some (discover_ids c l t runs) ]

-- `boundHeadSha && typeof snapshot?.headSha === "string" && snapshot.headSha !== boundHeadSha`
unfoldable pub is_mismatch : Option Text → Option Text → Bool
unfolding has_head
is_mismatch (some head) (some sha) = not (has_head head (some sha))
is_mismatch _ _ = false

pub data Reading : Type 0 where
  observed_runs : List Observed → Reading
  unreadable : Verdict → Reading

unfoldable pub cons_reading : Observed → Reading → Reading
cons_reading o (observed_runs os) = observed_runs (o ∷ os)
cons_reading o (unreadable v) = unreadable v

-- The snapshots of the watched runs, in order, up to the first that cannot be used.
unfoldable pub observe : Settings → Tick → List ℕ → Reading
unfolding is_mismatch cons_reading
observe c t [] = observed_runs []
observe c t (id ∷ ids) =
    let rest = observe c t ids in
    elim (t.snapshot id) [
      | none ↦ unreadable (snapshot_failed id)
      | some s ↦
          if is_mismatch c.head s.head_sha
          then unreadable (head_mismatch id)
          else cons_reading (record { id = id; snapshot = s }) rest
    ]

unfoldable pub has_failed : Observed → Bool
unfolding is_failed_run is_failed_job
has_failed o =
    is_failed_run o.snapshot.conclusion || any (λ j. is_failed_job j.conclusion) o.snapshot.jobs

unfoldable pub pending_runs : List Observed → List Observed
unfolding is_completed
pending_runs os = filter (λ o. not (is_completed o.snapshot.status)) os

unfoldable pub get : List (ℕ × ℕ) → ℕ → Option ℕ
get [] k = none
get ((j, v) ∷ m) k = if j == k then some v else get m k

unfoldable pub or_else : Option ℕ → ℕ → ℕ
or_else none d = d
or_else (some n) d = n

unfoldable pub elapsed_seconds : Settings → Tick → ℕ
elapsed_seconds c t = (t.after_ms - c.start_ms) / 1000

unfoldable pub waited : List (ℕ × ℕ) → Tick → Observed → Option ℕ
unfolding get or_else
waited first t o = queued_seconds o.snapshot t.after_ms (or_else (get first o.id) t.after_ms)

unfoldable pub decision : Settings → List (ℕ × ℕ) → Tick → Observed → PollAction
unfolding elapsed_seconds waited
decision c first t o =
    evaluate_poll o.snapshot.status (elapsed_seconds c t) (waited first t o) c.queued_timeout
      c.total_timeout

-- When a run was first seen in the queue.
unfoldable pub note_queued : List (ℕ × ℕ) → Tick → Observed → List (ℕ × ℕ)
note_queued first t o = elim (waited first t o) [
  | none ↦ first
  | some _ ↦ elim (get first o.id) [ some _ ↦ first | none ↦ (o.id, t.after_ms) ∷ first ]
]

pub data Judged : Type 0 where
  ends_with : Verdict → Judged
  goes_on : List (ℕ × ℕ) → Judged

unfoldable pub close_judging : Option Observed → List (ℕ × ℕ) → Judged
close_judging none first = goes_on first
close_judging (some o) first = ends_with (out_of_time o)

unfoldable pub or_run : Option Observed → Observed → Option Observed
or_run none o = some o
or_run (some r) o = some r

-- The loop over the pending runs; `late` is `timedOut`.
unfoldable pub judge : Settings → List (ℕ × ℕ) → Tick → Option Observed → List Observed → Judged
unfolding decision close_judging or_run note_queued
judge c first t late [] = close_judging late first
judge c first t late (o ∷ os) =
    let rest = judge c (note_queued first t o) t late os in
    let rest_late = judge c (note_queued first t o) t (or_run late o) os in
    elim (decision c first t o) [
      | queued_too_long ↦ ends_with (stuck_in_queue o)
      | watch_timed_out ↦ rest_late
      | _ ↦ rest
    ]

unfoldable pub conclude : List Observed → Verdict
conclude os = elim (responsible os) [ none ↦ succeeded os | some o ↦ concluded o os ]

pub data Round : Type 0 where
  finished : Verdict → Round
  next_round : Loop → Round

unfoldable pub judged_round : Loop → Judged → Round
judged_round l (ends_with v) = finished v
judged_round l (goes_on first) = next_round (record l { first_queued = first })

unfoldable pub settle : Settings → Loop → Tick → List Observed → List Observed → Round
unfolding judge judged_round conclude
settle c l t os [] = if l.discovery_closed then finished (conclude os) else next_round l
settle c l t os (p ∷ ps) = judged_round l (judge c l.first_queued t none (p ∷ ps))

unfoldable pub judge_reading : Settings → Loop → Tick → Reading → Round
unfolding settle has_failed pending_runs
judge_reading c l t (unreadable v) = finished v
judge_reading c l t (observed_runs os) = elim (find has_failed os) [
  | some o ↦ finished (failed_early o os)
  | none ↦ settle c l t os (pending_runs os)
]

-- One round of the loop.
unfoldable pub round : Settings → Loop → Tick → Round
unfolding discover observe judge_reading
round c l t = elim (discover c l t) [
  | none ↦ finished lookup_failed
  | some l' ↦ judge_reading c l' t (observe c t l'.watched)
]

-- The loop, with fuel, over what the rounds read; `none` means that the fuel ran out.
unfoldable pub watch : ℕ → Settings → Loop → (ℕ → Tick) → ℕ → Option Verdict
unfolding round
watch zero c l ticks k = none
watch (suc fuel) c l ticks k = elim (round c l (ticks k)) [
  | finished v ↦ some v
  | next_round l' ↦ watch fuel c l' ticks (suc k)
]
