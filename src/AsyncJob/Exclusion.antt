-- ===== src/AsyncJob/Exclusion.antt =====
-- How many job objects of mcp/ground-control/lib/async-job-registry.js pass a test, from one event
-- to the next: only a start adds one.
use ground_control.Prelude.{
  ℕ, suc, ◌+◌, ◌≤◌, ◌≡◌, refl, Bool, true, false, Option, none, some, List, [], ◌∷◌, ◌++◌, map,
  arith, count, find, any,
}
use ground_control.Prelude.Text.{Text}
use ground_control.AsyncJob.Job.{
  Job, Scrubber, Refusal, Failure, Snapshot, bound_progress, Envelope, running_job,
}
use ground_control.AsyncJob.Options.{Options, validate}
use ground_control.AsyncJob.Registry.{
  Registry, update_first, update, is_mapped_as, is_object, unmap, reap_job, reap, get,
  resolve_existing, resolve_idempotent, is_same_attempt, new_job, start_new, start_resolved,
  start_checked, start, poll, abort, cancel_found, cancel, report, add_job, is_contended,
}
use ground_control.AsyncJob.Settling.{
  fulfil_job, reject_job, finalize_job, hold, await_polled, await, release, fulfil, reject,
  finalize, expire, Event, step, start_event, poll_event, cancel_event, finalize_event, await_event,
  report_event, fulfil_event, reject_event, expire_event,
}

module _ {R : Type 0} (p : Job R → Bool) where
  abbrev pub Shrinks : (Job R → Job R) → Type 0
  Shrinks f = (j : Job R) → p (f j) ≡ true → p j ≡ true

  abbrev pub number : Registry R → ℕ
  number r = count p r.objects

  -- No change that the registry makes to an object puts it among those that `p` counts.
  pub record IsClosed : Type 0 where
    pub reaps : (now : ℕ) → Shrinks (reap_job now)
    pub unmaps : Shrinks unmap
    pub holds : (w : ℕ) → Shrinks (hold w)
    pub releases : (w : ℕ) → Shrinks (release w)
    pub aborts : Shrinks abort
    pub reports :
        (snapshot : Option Snapshot)
        → Shrinks (λ j. record j { progress = bound_progress snapshot })
    pub fulfils : (v : R) → Shrinks (fulfil_job v)
    pub rejects : (s : Scrubber) (e : Failure) → Shrinks (reject_job s e)
    pub finalizes : (now : ℕ) → Shrinks (finalize_job now)

  count-map-le :
      (f : Job R → Job R) (js : List (Job R)) → Shrinks f → count p (map f js) ≤ count p js
  count-map-le f [] h = omega arith
  count-map-le f (j ∷ js) h = ground (arith, h j, count-map-le f js h)

  count-update_first-le :
      (q : Job R → Bool) (f : Job R → Job R) (js : List (Job R))
      → Shrinks f
      → count p (update_first q f js) ≤ count p js
  unfolding update_first
  count-update_first-le q f [] h = omega arith
  count-update_first-le q f (j ∷ js) h = ground (arith, h j, count-update_first-le q f js h)

  count-append :
      (js : List (Job R)) (j : Job R) → count p (js ++ j ∷ []) ≡ count p js + count p (j ∷ [])
  count-append [] j = ground arith
  count-append (k ∷ js) j = ground (arith, count-append js j)

  pub count_of_none : (js : List (Job R)) → find p js ≡ none → count p js ≡ 0
  count_of_none [] h = refl
  count_of_none (j ∷ js) h = ground (arith, count_of_none js)

  pub count_of_not_any : (js : List (Job R)) → any p js ≡ false → count p js ≡ 0
  count_of_not_any [] h = refl
  count_of_not_any (j ∷ js) h = ground (arith, count_of_not_any js)

  -- Of at most one object, none is left when the one found is taken out.
  pub count_of_taken :
      (js : List (Job R))
      → ((j : Job R) → p (unmap j) ≡ false)
      → count p js ≤ 1
      → count p (update_first p unmap js) ≡ 0
  unfolding update_first
  count_of_taken [] h le = refl
  count_of_taken (j ∷ js) h le = ground (arith, h j, count_of_taken js h)

  module _ (closed : IsClosed) where
    open closed use {reaps, unmaps, holds, releases, aborts, reports, fulfils, rejects, finalizes}

    number-reap-le : (now : ℕ) (r : Registry R) → number (reap now r) ≤ number r
    unfolding reap
    number-reap-le now r = count-map-le (reap_job now) r.objects (reaps now)

    number-update-le :
        (q : Job R → Bool) (f : Job R → Job R) (r : Registry R)
        → Shrinks f
        → number (update q f r) ≤ number r
    unfolding update
    number-update-le q f r h = count-update_first-le q f r.objects h

    number-resolve-le :
        (s : Scrubber) (now : ℕ) (o : Options R) (r : Registry R)
        → number (resolve_idempotent s now o r).0 ≤ number r
    unfolding resolve_idempotent resolve_existing
    number-resolve-le s now o r =
        ground (arith, number-update-le (is_same_attempt o) unmap r unmaps)

    number-poll-le :
        (s : Scrubber) (now : ℕ) (id : Text) (r : Registry R)
        → number (poll s now id r).0 ≤ number r
    unfolding poll
    number-poll-le s now id r = number-reap-le now r

    number-cancel_found-le :
        (id : Text) (r : Registry R) (found : Option (Job R))
        → number (cancel_found id r found).0 ≤ number r
    unfolding cancel_found
    number-cancel_found-le id r none = omega arith
    number-cancel_found-le id r (some j) =
        ground (arith, number-update-le (is_mapped_as id) abort r aborts)

    number-cancel-le :
        (now : ℕ) (id : Text) (r : Registry R) → number (cancel now id r).0 ≤ number r
    unfolding cancel
    number-cancel-le now id r =
        ground (
          arith,
          number-reap-le now r,
          number-cancel_found-le id (reap now r) (get id (reap now r)),
        )

    number-await_polled-le :
        (id : Text) (w : ℕ) (r : Registry R) (reply : Envelope R)
        → number (await_polled id w (r, reply)).0 ≤ number r
    unfolding await_polled
    number-await_polled-le id w r (running_job _ _ _ _) =
        number-update-le (is_mapped_as id) (hold w) r (holds w)
    number-await_polled-le id w r reply = omega arith

    number-await-le :
        (s : Scrubber) (now : ℕ) (id : Text) (wait_ms : Option ℕ) (w : ℕ) (r : Registry R)
        → number (await s now id wait_ms w r).0 ≤ number r
    unfolding await
    number-await-le s now id wait_ms w r = ground (
      arith,
      number-poll-le s now id r,
      number-await_polled-le id w (poll s now id r).0 (poll s now id r).1,
    )

    -- Only a start can add to the number.
    pub number-step :
        (s : Scrubber) (r : Registry R) (e : Event R)
        → ((now : ℕ) (kind : Text) (o : Options R)
            → e ≡ start_event now kind o
            → number (start s now kind o r).0 ≤ 1)
        → number r ≤ 1
        → number (step s r e) ≤ 1
    unfolding step finalize fulfil reject expire report
    number-step s r (start_event now kind o) begin le = begin now kind o refl
    number-step s r (poll_event now id) begin le = omega (arith, number-poll-le s now id r)
    number-step s r (cancel_event now id) begin le = omega (arith, number-cancel-le now id r)
    number-step s r (finalize_event now id) begin le =
        omega (arith, number-update-le (is_object id) (finalize_job now) r (finalizes now))
    number-step s r (await_event now id wait_ms w) begin le =
        omega (arith, number-await-le s now id wait_ms w r)
    number-step s r (report_event id snapshot) begin le =
        omega (arith, number-update-le (is_object id) _ r (reports snapshot))
    number-step s r (fulfil_event id v) begin le =
        omega (arith, number-update-le (is_object id) (fulfil_job v) r (fulfils v))
    number-step s r (reject_event id e) begin le =
        omega (arith, number-update-le (is_object id) (reject_job s e) r (rejects s e))
    number-step s r (expire_event now id w) begin le =
        omega (arith, number-update-le (is_object id) (release w) r (releases w))

    -- A start adds a job that `p` counts only where there is none.
    pub number-start :
        (s : Scrubber) (now : ℕ) (kind : Text) (o : Options R) (r : Registry R)
        → ((seq : ℕ) (q : Registry R)
            → number (reap now r) ≤ 1
            → resolve_idempotent s now o (reap now r) ≡ (q, none)
            → is_contended o q ≡ false
            → p (new_job now seq kind o) ≡ true
            → number q ≡ 0)
        → number r ≤ 1
        → number (start s now kind o r).0 ≤ 1
    unfolding start
    number-start s now kind o r alone le = by_check (validate o)
      where
        before : number (resolve_idempotent s now o (reap now r)).0 ≤ 1
        before = omega (arith, le, number-reap-le now r, number-resolve-le s now o (reap now r))

        by_reply :
            (found : Registry R × Option (Envelope R))
            → resolve_idempotent s now o (reap now r) ≡ found
            → number found.0 ≤ 1
            → number (start_resolved s now kind o found).0 ≤ 1
        by_reply (q, some reply) e h = unfold start_resolved in h
        by_reply (q, none) e h =
            let reaped : number (reap now r) ≤ 1 = omega (arith, le, number-reap-le now r) in
            unfold start_resolved start_new add_job in
            (ground (
              arith,
              alone (suc q.seq) q reaped e,
              count-append q.objects (new_job now (suc q.seq) kind o),
            ))

        by_check : (e : Option Refusal) → number (start_checked s now kind o r e).0 ≤ 1
        by_check (some e) = unfold start_checked in le
        by_check none =
            unfold start_checked in (by_reply (resolve_idempotent s now o (reap now r)) refl before)
