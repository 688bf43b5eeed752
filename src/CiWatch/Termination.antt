-- ===== src/CiWatch/Termination.antt =====
-- The watch of mcp/ground-control/lib/ci-watcher.js ends.
use ground_control.Prelude.{
  ℕ, zero, suc, ◌+◌, ◌≤◌, ◌<◌, ◌≡◌, ◌⊎◌, true, false, none, some, List, [], ◌∷◌, refl, arith, All,
  Bool-cases, inl, inr, Option-cases, subst, find,
}
use ground_control.CiWatch.Run.{
  Observed, is_completed, evaluate_poll, queued_too_long, watch_timed_out,
}
use ground_control.CiWatch.Watch.{
  Settings, Tick, Verdict, Loop, discover, discover_ids, Reading, observed_runs, unreadable,
  observe, has_failed, pending_runs, conclude, settle, judge, judged_round, close_judging,
  judge_reading, round, watch, Round, finished, next_round, ends_with, decision, note_queued,
  or_run, elapsed_seconds, lookup_failed, failed_early, stuck_in_queue,
}

-- The round comes at or after the deadline of the registration window, and after the total time.
pub record IsLate (c : Settings) (t : Tick) : Type 0 where
  pub listed_late : c.deadline_ms ≤ t.before_ms
  pub out_of_total : c.total_timeout < elapsed_seconds c t

decision_late :
    (c : Settings) (first : List (ℕ × ℕ)) (t : Tick) (o : Observed)
    → IsLate c t
    → is_completed o.snapshot.status ≡ false
    → (decision c first t o ≡ queued_too_long) ⊎ (decision c first t o ≡ watch_timed_out)
unfolding decision evaluate_poll
decision_late c first t o late waits = ground arith

judge_ends :
    (c : Settings) (first : List (ℕ × ℕ)) (t : Tick) (o : Observed) (os : List Observed)
    → IsLate c t
    → All (λ q. is_completed q.snapshot.status ≡ false) os
    → (v : Verdict) × (judge c first t (some o) os ≡ ends_with v)
unfolding judge close_judging or_run
judge_ends c first t o [] late waits = (_, refl)
judge_ends c first t o (q ∷ os) late waits = elim (decision_late c first t q late waits.0) [
  | inl stuck ↦ (stuck_in_queue q, rw (stuck, judge) refl)
  | inr over ↦
      let (v, e) = judge_ends c (note_queued first t q) t o os late waits.1 in
      (v, rw (over, judge) e)
]

judge_first :
    (c : Settings) (first : List (ℕ × ℕ)) (t : Tick) (o : Observed) (os : List Observed)
    → IsLate c t
    → All (λ q. is_completed q.snapshot.status ≡ false) (o ∷ os)
    → (v : Verdict) × (judge c first t none (o ∷ os) ≡ ends_with v)
unfolding judge or_run
judge_first c first t o os late waits = elim (decision_late c first t o late waits.0) [
  | inl stuck ↦ (stuck_in_queue o, rw (stuck, judge) refl)
  | inr over ↦
      let (v, e) = judge_ends c (note_queued first t o) t o os late waits.1 in
      (v, rw (over, judge) e)
]

pending_waits :
    (os : List Observed) → All (λ q. is_completed q.snapshot.status ≡ false) (pending_runs os)
unfolding pending_runs
pending_waits [] = tt
pending_waits (o ∷ os) = elim (Bool-cases (is_completed o.snapshot.status)) [
  | inl done ↦ rw done (pending_waits os)
  | inr waits ↦ rw waits (waits, pending_waits os)
]

settle_ends :
    (c : Settings) (l : Loop) (t : Tick) (os waits : List Observed)
    → IsLate c t
    → l.discovery_closed ≡ true
    → All (λ q. is_completed q.snapshot.status ≡ false) waits
    → (v : Verdict) × (settle c l t os waits ≡ finished v)
unfolding settle judged_round
settle_ends c l t os [] late closed w = (conclude os, ground arith)
settle_ends c l t os (p ∷ ps) late closed w =
    let (v, e) = judge_first c l.first_queued t p ps late w in (v, rw e)

reading_ends :
    (c : Settings) (l : Loop) (t : Tick) (r : Reading)
    → IsLate c t
    → l.discovery_closed ≡ true
    → (v : Verdict) × (judge_reading c l t r ≡ finished v)
unfolding judge_reading
reading_ends c l t (unreadable v) late closed = (v, refl)
reading_ends c l t (observed_runs os) late closed =
    let (v, e) = settle_ends c l t os (pending_runs os) late closed (pending_waits os) in
    elim (Option-cases (find has_failed os)) [
      | inl fine ↦ (v, rw (fine, judge_reading) e)
      | inr (o, failed) ↦ (failed_early o os, rw (failed, judge_reading) refl)
    ]

discover_late :
    (c : Settings) (l l' : Loop) (t : Tick)
    → IsLate c t
    → discover c l t ≡ some l'
    → l'.discovery_closed ≡ true
unfolding discover discover_ids
discover_late c l l' t late h = ground arith

round_ends :
    (c : Settings) (l : Loop) (t : Tick) → IsLate c t → (v : Verdict) × (round c l t ≡ finished v)
unfolding round
round_ends c l t late = elim (Option-cases (discover c l t)) [
  | inl fails ↦ (lookup_failed, rw (fails, round) refl)
  | inr (l', found) ↦
      let (v, e) =
        reading_ends c l' t (observe c t l'.watched) late (discover_late c l l' t late found) in
      (v, rw (found, round) e)
]

-- As soon as one of the rounds comes after the registration deadline and the total time, the watch
-- has a verdict by that round: fuel for the rounds up to it is enough, whatever the runs do.
pub watch_ends :
    (n : ℕ) (fuel : ℕ) (c : Settings) (l : Loop) (ticks : ℕ → Tick) (k : ℕ)
    → n < fuel
    → IsLate c (ticks (k + n))
    → (v : Verdict) × (watch fuel c l ticks k ≡ some v)
unfolding watch
watch_ends n zero c l ticks k h late = elim h [ ]
watch_ends zero (suc fuel) c l ticks k h late =
    let (v, e) = round_ends c l (ticks k) (subst (λ m. IsLate c (ticks m)) (omega arith) late) in
    (v, rw (e, watch) refl)
watch_ends (suc n) (suc fuel) c l ticks k h late = by_round (round c l (ticks k)) refl (λ l'.
    watch_ends n fuel c l' ticks (suc k) (omega arith)
      (subst (λ m. IsLate c (ticks m)) (omega arith) late))
  where
    by_round :
        (r : Round)
        → round c l (ticks k) ≡ r
        → ((l' : Loop) → (v : Verdict) × (watch fuel c l' ticks (suc k) ≡ some v))
        → (v : Verdict) × (elim r [
          | finished v ↦ some v
          | next_round l' ↦ watch fuel c l' ticks (suc k)
        ]
            ≡ some v)
    by_round (finished v) e rest = (v, refl)
    by_round (next_round l') e rest = rest l'
