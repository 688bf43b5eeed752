-- ===== src/CiWatch/Passed.antt =====
-- What a round of the watch that ends with a success has read, in mcp/ground-control/lib/ci-watcher.js rests on.
use ground_control.Prelude.{
  ℕ, ◌≡◌, true, false, not, Option, none, some, List, [], ◌∷◌, refl, arith, All, find, filter,
  Bool-cases, Option-cases, inl, inr, ◌≢◌, subst,
}
use ground_control.CiWatch.Run.{
  Observed, is_completed, is_success, is_failure, responsible, completed, RunStatus, Conclusion,
  success,
}
use ground_control.CiWatch.Watch.{
  Settings, Tick, succeeded, Loop, discover, is_mismatch, Reading, observed_runs, unreadable,
  observe, cons_reading, pending_runs, conclude, settle, judge, judged_round, close_judging,
  judge_reading, round, finished, ends_with, note_queued, or_run,
}

-- The snapshot that this round read for the run: of the bound head, as far as it names one.
abbrev pub IsRead : Settings → Tick → Observed → Type 0
IsRead c t o =
    (t.snapshot o.id ≡ some o.snapshot) × (is_mismatch c.head o.snapshot.head_sha ≡ false)

abbrev pub IsGreen : Settings → Tick → Observed → Type 0
IsGreen c t o =
    IsRead c t o × (o.snapshot.status ≡ completed) × (o.snapshot.conclusion ≡ some success)

completed_lem : (s : RunStatus) → is_completed s ≡ true → s ≡ completed
unfolding is_completed
completed_lem s h = ground (arith, h)

success_lem : (o : Option Conclusion) → is_success o ≡ true → o ≡ some success
unfolding is_success
success_lem o h = ground (arith, h)

abbrev pub run_ids : List Observed → List ℕ
run_ids [] = []
run_ids (o ∷ os) = o.id ∷ run_ids os

observe-IsRead :
    (c : Settings) (t : Tick) (ids : List ℕ) (os : List Observed)
    → observe c t ids ≡ observed_runs os
    → (run_ids os ≡ ids) × All (IsRead c t) os
unfolding observe cons_reading
observe-IsRead c t [] [] h = (refl, tt)
observe-IsRead c t [] (o ∷ os) h = cc
observe-IsRead c t (id ∷ ids) [] h = absurd (ground arith)
observe-IsRead c t (id ∷ ids) (o ∷ os) h = ground (arith, observe-IsRead c t ids os)

pending_none :
    (os : List Observed)
    → pending_runs os ≡ []
    → All (λ o. is_completed o.snapshot.status ≡ true) os
unfolding pending_runs
pending_none [] h = tt
pending_none (o ∷ os) h = elim (Bool-cases (is_completed o.snapshot.status)) [
  | inl e ↦ (e, pending_none os (rw e at h))
  | inr e ↦ cc
]

some_responsible :
    (rest : List Observed)
    → elim (find (λ o. is_failure o.snapshot.conclusion) rest) [
      | some o ↦ some o
      | none ↦ find (λ _. true) rest
    ]
      ≡ none
    → rest ≡ []
some_responsible [] h = refl
some_responsible (o ∷ rest) h = ground arith

filter_none :
    (os : List Observed)
    → filter (λ o. not (is_success o.snapshot.conclusion)) os ≡ []
    → All (λ o. is_success o.snapshot.conclusion ≡ true) os
filter_none [] h = tt
filter_none (o ∷ os) h = elim (Bool-cases (is_success o.snapshot.conclusion)) [
  | inl e ↦ (e, filter_none os (rw e at h))
  | inr e ↦ cc
]

responsible-none :
    (os : List Observed)
    → responsible os ≡ none
    → All (λ o. is_success o.snapshot.conclusion ≡ true) os
unfolding responsible
responsible-none os h = filter_none os (some_responsible _ h)

All-both :
    (c : Settings) (t : Tick) (os : List Observed)
    → All (IsRead c t) os
    → All (λ o. is_completed o.snapshot.status ≡ true) os
    → All (λ o. is_success o.snapshot.conclusion ≡ true) os
    → All (IsGreen c t) os
All-both c t [] p q r = tt
All-both c t (o ∷ os) p q r = (
  (p.0, completed_lem o.snapshot.status q.0, success_lem o.snapshot.conclusion r.0),
  All-both c t os p.1 q.1 r.1,
)

-- What a success at the end of one round says.
pub record Passed (c : Settings) (t : Tick) (l : Loop) (os : List Observed) : Type 0 where
  pub closed : l.discovery_closed ≡ true
  pub whole_set : run_ids os ≡ l.watched
  pub green : All (IsGreen c t) os

conclude_succeeded :
    (os qs : List Observed) → conclude os ≡ succeeded qs → (os ≡ qs) × (responsible os ≡ none)
unfolding conclude
conclude_succeeded os qs h = ground arith

judged_not :
    (c : Settings) (first : List (ℕ × ℕ)) (t : Tick) (late : Option Observed)
    (os qs : List Observed)
    → judge c first t late os ≢ ends_with (succeeded qs)
unfolding judge close_judging
judged_not c first t none [] qs h = cc
judged_not c first t (some o) [] qs h = cc
judged_not c first t late (o ∷ os) qs h = ground (
  arith,
  judged_not c (note_queued first t o) t late os qs,
  judged_not c (note_queued first t o) t (or_run late o) os qs,
)

settle-Passed :
    (c : Settings) (l : Loop) (t : Tick) (os qs waits : List Observed)
    → observe c t l.watched ≡ observed_runs os
    → pending_runs os ≡ waits
    → settle c l t os waits ≡ finished (succeeded qs)
    → Passed c t l qs
unfolding settle judged_round
settle-Passed c l t os qs [] read none_waits h =
    let (same, none_responsible) = conclude_succeeded os qs (ground arith) in
    let (ids, reads) = observe-IsRead c t l.watched os read in
    record {
      closed = ground arith;
      whole_set = subst (λ x. run_ids x ≡ l.watched) same ids;
      green = subst (All (IsGreen c t)) same (
          All-both c t os reads (pending_none os none_waits)
            (responsible-none os none_responsible));
    }
settle-Passed c l t os qs (p ∷ ps) read none_waits h =
    absurd (ground (arith, judged_not c l.first_queued t none (p ∷ ps) qs))

observe_not :
    (c : Settings) (t : Tick) (ids : List ℕ) (qs : List Observed)
    → observe c t ids ≢ unreadable (succeeded qs)
unfolding observe cons_reading
observe_not c t [] qs h = cc
observe_not c t (id ∷ ids) qs h = ground (arith, observe_not c t ids qs)

reading-Passed :
    (c : Settings) (l : Loop) (t : Tick) (r : Reading) (qs : List Observed)
    → observe c t l.watched ≡ r
    → judge_reading c l t r ≡ finished (succeeded qs)
    → Passed c t l qs
unfolding judge_reading
reading-Passed c l t (unreadable v) qs e h = absurd (observe_not c t l.watched qs (ground arith))
reading-Passed c l t (observed_runs os) qs e h =
    settle-Passed c l t os qs (pending_runs os) e refl (ground arith)

pub round-Passed :
    (c : Settings) (l : Loop) (t : Tick) (qs : List Observed)
    → round c l t ≡ finished (succeeded qs)
    → (l' : Loop) × (discover c l t ≡ some l') × Passed c t l' qs
unfolding round
round-Passed c l t qs h = elim (Option-cases (discover c l t)) [
  | inl fails ↦ absurd (ground arith)
  | inr (l', found) ↦
      (l', found, reading-Passed c l' t (observe c t l'.watched) qs refl (ground arith))
]
