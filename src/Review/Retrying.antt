-- ===== src/Review/Retrying.antt =====
-- The retry loop of mcp/ground-control/lib/review-reattempt.js.
use ground_control.Prelude.{
  ℕ, zero, suc, ◌+◌, ◌≤◌, ◌<◌, ◌≡◌, ◌⊎◌, true, false, Option, none, some, List, [], ◌++◌, length,
  length-append, arith, Bool-cases, ℕ_discrete, subst, inr, inl, ltb, refl,
}
use ground_control.Review.Reattempt.{
  Classification, classify, Station, StationResult, station_result, Attempt, Outcome, recorded,
  run_from, run_station, clamp_retry_limit, decide_retry, Retry, retry_at, not_retryable,
  reattempts_exhausted,
}

-- The attempt with this ordinal.
abbrev pub attempt_class : Station → ℕ → Classification
attempt_class station k = classify (station k).1 (station k).0

-- What the loop promises from the attempt `first` on.
pub record Ends (station : Station) (max : Option ℕ) (first : ℕ) (before : List Attempt)
    (o : Outcome) : Type 0 where
  pub starts : first ≤ o.last_ordinal
  pub bounded : first ≤ suc (clamp_retry_limit max) → o.last_ordinal ≤ suc (clamp_retry_limit max)
  pub last_reply : o.envelope ≡ (station o.last_ordinal).0
  pub last_class : o.observed ≡ (attempt_class station o.last_ordinal).evaluable
  pub retried :
      (k : ℕ) → first ≤ k → k < o.last_ordinal → (attempt_class station k).retryable ≡ true
  pub stopped :
      ((attempt_class station o.last_ordinal).retryable ≡ false)
      ⊎ (clamp_retry_limit max < o.last_ordinal)
  pub reported : length o.attempts + first ≤ length before + suc o.last_ordinal

length-recorded :
    (k : ℕ) (c : Classification) (r : Option StationResult) → length (recorded k c r) ≤ 1
unfolding recorded
length-recorded k c none = omega arith
length-recorded k c (some r) = omega arith

abbrev IsStop : Retry → Type 0
IsStop (retry_at n) = ⊥
IsStop _ = Unit

-- The decision after an attempt: to stop, with the reason, or to go on with the next ordinal.
decision :
    (first : ℕ) (max : Option ℕ) (c : Classification)
    → ((r : Retry) × ((decide_retry first max c ≡ r) × IsStop r)
        × ((c.retryable ≡ false) ⊎ (clamp_retry_limit max < first)))
      ⊎ ((c.retryable ≡ true)
          × (first ≤ clamp_retry_limit max)
          × (decide_retry first max c ≡ retry_at (first + 1)))
unfolding decide_retry
decision first max c = elim (Bool-cases c.retryable) [
  | inr stop ↦ inl (not_retryable, (rw stop, tt), inl stop)
  | inl again ↦ elim (Bool-cases (ltb (clamp_retry_limit max) first)) [
    | inl over ↦ inl (reattempts_exhausted, (rw (again, over), tt), inr (ground arith))
    | inr room ↦ inr (again, ground arith, rw (again, room))
  ]
]

run_from-Ends :
    (fuel : ℕ) (station : Station) (max : Option ℕ) (first : ℕ) (before : List Attempt)
    → suc (clamp_retry_limit max) < fuel + first
    → 0 < fuel
    → (o : Outcome) × (run_from fuel station max first before ≡ some o)
      × Ends station max first before o
unfolding run_from
run_from-Ends zero station max first before enough some_fuel = absurd (omega arith)
run_from-Ends (suc fuel) station max first before enough some_fuel = elim (decision first max c) [
  | inl (r, e, why) ↦ (here, stops r e, ends why)
  | inr (again, room, e) ↦
      let (o, found, rest) =
        run_from-Ends fuel station max (first + 1) attempts' (omega arith) (omega (arith, room)) in
      (o, rw (e, run_from) found, later again room o rest)
]
  where
    c : Classification
    c = attempt_class station first

    attempts' : List Attempt
    attempts' = before ++ recorded first c (station_result c (station first).0)

    here : Outcome
    here = record {
      envelope = (station first).0;
      observed = c.evaluable;
      attempts = attempts';
      last_ordinal = first;
    }

    one_more : length attempts' ≤ length before + 1
    one_more = omega (
      arith,
      length-append before (recorded first c (station_result c (station first).0)),
      length-recorded first c (station_result c (station first).0),
    )

    stops :
        (r : Retry)
        → (decide_retry first max c ≡ r) × IsStop r
        → run_from (suc fuel) station max first before ≡ some here
    stops not_retryable e = rw (e.0, run_from)
    stops reattempts_exhausted e = rw (e.0, run_from)
    stops (retry_at n) e = absurd e.1

    ends :
        (c.retryable ≡ false) ⊎ (clamp_retry_limit max < first) → Ends station max first before here
    ends why = record {
      starts = omega arith;
      bounded = λ h. h;
      last_reply = refl;
      last_class = refl;
      retried = λ k lo hi. absurd (omega arith);
      stopped = why;
      reported = omega (arith, one_more);
    }

    later :
        c.retryable ≡ true
        → first ≤ clamp_retry_limit max
        → (o : Outcome) → Ends station max (first + 1) attempts' o
        → Ends station max first before o
    later again room o rest = record {
      starts = omega (arith, rest.starts);
      bounded = λ h. rest.bounded (omega arith);
      last_reply = rest.last_reply;
      last_class = rest.last_class;
      retried = λ k lo hi. elim (ℕ_discrete first k) [
        | yes same ↦ subst (λ n. (attempt_class station n).retryable ≡ true) same again
        | no other ↦ rest.retried k (omega arith) hi
      ];
      stopped = rest.stopped;
      reported = omega (arith, rest.reported, one_more);
    }

clamp_retry_limit-le : (max : Option ℕ) → clamp_retry_limit max ≤ 2
unfolding clamp_retry_limit
clamp_retry_limit-le none = omega arith
clamp_retry_limit-le (some n) = ground arith

-- The retry loop always returns, after at most one attempt more than the limit, which is at most
-- two: the reply returned is that of the last attempt and is called observed exactly if that one
-- rendered a verdict, every attempt before it was retryable, it stopped because it was not retryable
-- or the limit was used up, and no more attempts are reported than were made.
pub run_station-Ends :
    (station : Station) (max : Option ℕ)
    → (o : Outcome) × (run_station station max ≡ some o)
      × (o.last_ordinal ≤ suc (clamp_retry_limit max))
      × (clamp_retry_limit max ≤ 2)
      × Ends station max 1 [] o
unfolding run_station
run_station-Ends station max =
    let le = clamp_retry_limit-le max in
    let (o, e, ends) = run_from-Ends 3 station max 1 [] (omega (arith, le)) (omega arith) in
    (o, e, ends.bounded (omega arith), le, ends)
