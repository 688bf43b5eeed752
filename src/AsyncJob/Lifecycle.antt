-- ===== src/AsyncJob/Lifecycle.antt =====
-- The life of a job in mcp/ground-control/lib/async-job-registry.js, over every sequence of events.
use ground_control.Prelude.{
  ℕ, suc, ◌≡◌, refl, Bool, true, false, Option, none, some, List, [], ◌∷◌, arith, if◌then◌else◌,
  leb, Bool-cases, inl, inr, find, is_some, All,
}
use ground_control.Prelude.Int.{ℤ}
use ground_control.Prelude.Text.{Text, option_eq}
use ground_control.AsyncJob.Handle.{is_handle}
use ground_control.AsyncJob.Job.{
  is_running, Scrubber, Job, Envelope, Refusal, Progress, job_not_found, running_job, refused,
  envelope,
}
use ground_control.AsyncJob.Options.{Options, validate}
use ground_control.AsyncJob.Registry.{
  Registry, update, is_mapped_as, is_object, unmap, reap_job, reap, get, resolve_existing,
  resolve_idempotent, is_same_attempt, new_job, start_new, start_resolved, start_checked, start,
  reply_to_poll, poll, abort, cancel_found, cancel, report, add_job, is_stale, is_contended, size,
}
use ground_control.AsyncJob.Settling.{
  fulfil_job, reject_job, finalize_job, hold, await_polled, is_valid_wait, await, release, fulfil,
  reject, finalize, expire, Event, step, run, start_event, poll_event, cancel_event, finalize_event,
  await_event, report_event, fulfil_event, reject_event, expire_event,
}
use ground_control.AsyncJob.Evolution.{
  IsSound, Good, Evolves, Evolves-refl, Evolves-IsSound, Evolves-trans, Evolves-append,
  Evolves-update_first, Evolves-map, reap_job-Good, fulfil_job-Good, reject_job-Good,
  finalize_job-Good, release-Good, hold-Good, abort-Good, unmap-Good, report-Good,
}

module _ {R : Type 0} where
  abbrev Sound : Registry R → Type 0
  Sound r = All IsSound r.objects

  reap-Evolves : (now : ℕ) (r : Registry R) → Sound r → Evolves r.objects (reap now r).objects
  unfolding reap
  reap-Evolves now r h = Evolves-map (reap_job now) r.objects (reap_job-Good now) h

  update-Evolves :
      (p : Job R → Bool) (f : Job R → Job R) (r : Registry R)
      → ((j : Job R) → find p r.objects ≡ some j → IsSound j → Good j (f j))
      → Sound r
      → Evolves r.objects (update p f r).objects
  unfolding update
  update-Evolves p f r good h = Evolves-update_first p f r.objects good h

  -- A test that holds of what `find` returns.
  find-holds : (p : Job R → Bool) (js : List (Job R)) {j : Job R} → find p js ≡ some j → p j ≡ true
  find-holds p [] e = cc
  find-holds p (k ∷ js) {j} e = elim (Bool-cases (p k)) [
    | inl h ↦ ground arith
    | inr h ↦ find-holds p js (rw h at e)
  ]

  is_stale-settled : (o : Options R) (j : Job R) → is_stale o j ≡ true → is_running j.status ≡ false
  unfolding is_stale is_running
  is_stale-settled o j h = ground arith

  -- The object that the search finds is the one that is taken out.
  unmap_found :
      (o : Options R) (r : Registry R) (j : Job R)
      → find (is_same_attempt o) r.objects ≡ some j
      → is_stale o j ≡ true
      → Sound r
      → Evolves r.objects (update (is_same_attempt o) unmap r).objects
  unmap_found o r j e stale =
      update-Evolves (is_same_attempt o) unmap r
        (λ k e'. let same : k ≡ j = cc in unmap-Good k (rw same (is_stale-settled o j stale)))

  resolve_existing-Evolves :
      (s : Scrubber) (now : ℕ) (o : Options R) (r : Registry R) (found : Option (Job R))
      → find (is_same_attempt o) r.objects ≡ found
      → Sound r
      → Evolves r.objects (resolve_existing s now o r found).0.objects
  unfolding resolve_existing
  resolve_existing-Evolves s now o r none e h = Evolves-refl r.objects h
  resolve_existing-Evolves s now o r (some j) e h =
      elim (Bool-cases (option_eq j.fingerprint o.fingerprint)) [
        | inr differs ↦ rw differs (Evolves-refl r.objects h)
        | inl agrees ↦ elim (Bool-cases (is_stale o j)) [
          | inl stale ↦ rw (agrees, stale) (unmap_found o r j e stale h)
          | inr fresh ↦ rw (agrees, fresh) (Evolves-refl r.objects h)
        ]
      ]

  resolve_idempotent-Evolves :
      (s : Scrubber) (now : ℕ) (o : Options R) (r : Registry R)
      → Sound r
      → Evolves r.objects (resolve_idempotent s now o r).0.objects
  unfolding resolve_idempotent
  resolve_idempotent-Evolves s now o r h = elim (Bool-cases (is_some o.idempotency_key)) [
    | inl keyed ↦
        rw keyed (resolve_existing-Evolves s now o r (find (is_same_attempt o) r.objects) refl h)
    | inr unkeyed ↦ rw unkeyed (Evolves-refl r.objects h)
  ]

  new_job-IsSound : (now seq : ℕ) (kind : Text) (o : Options R) → IsSound (new_job now seq kind o)
  unfolding new_job is_running
  new_job-IsSound now seq kind o = ground arith

  start_new-Evolves :
      (s : Scrubber) (now : ℕ) (kind : Text) (o : Options R) (r : Registry R)
      → Sound r
      → Evolves r.objects (start_new s now kind o r).0.objects
  unfolding start_new add_job
  start_new-Evolves s now kind o r h = elim (Bool-cases (is_contended o r)) [
    | inl busy ↦ rw busy (Evolves-refl r.objects h)
    | inr free ↦ elim (Bool-cases (leb r.capacity (size r))) [
      | inl full ↦ rw (free, full) (Evolves-refl r.objects h)
      | inr room ↦
          rw (free, room)
            (Evolves-append r.objects (new_job now (suc r.seq) kind o ∷ []) h
              (new_job-IsSound now (suc r.seq) kind o, tt))
    ]
  ]

  start_resolved-Evolves :
      (s : Scrubber) (now : ℕ) (kind : Text) (o : Options R)
      (found : Registry R × Option (Envelope R))
      → Sound found.0
      → Evolves found.0.objects (start_resolved s now kind o found).0.objects
  unfolding start_resolved
  start_resolved-Evolves s now kind o (r, none) h = start_new-Evolves s now kind o r h
  start_resolved-Evolves s now kind o (r, some reply) h = Evolves-refl r.objects h

  start_checked-Evolves :
      (s : Scrubber) (now : ℕ) (kind : Text) (o : Options R) (r : Registry R) (e : Option Refusal)
      → Sound r
      → Evolves r.objects (start_checked s now kind o r e).0.objects
  unfolding start_checked
  start_checked-Evolves s now kind o r (some e) h = Evolves-refl r.objects h
  start_checked-Evolves s now kind o r none h =
      let reaped = reap-Evolves now r h in
      let found = resolve_idempotent s now o (reap now r) in
      let resolved =
        resolve_idempotent-Evolves s now o (reap now r)
          (Evolves-IsSound r.objects (reap now r).objects reaped) in
      Evolves-trans r.objects _ _ (Evolves-trans r.objects _ _ reaped resolved) (
        start_resolved-Evolves s now kind o found
          (Evolves-IsSound (reap now r).objects found.0.objects resolved))

  start-Evolves :
      (s : Scrubber) (now : ℕ) (kind : Text) (o : Options R) (r : Registry R)
      → Sound r
      → Evolves r.objects (start s now kind o r).0.objects
  unfolding start
  start-Evolves s now kind o r h = start_checked-Evolves s now kind o r (validate o) h

  poll-Evolves :
      (s : Scrubber) (now : ℕ) (id : Text) (r : Registry R)
      → Sound r
      → Evolves r.objects (poll s now id r).0.objects
  unfolding poll
  poll-Evolves s now id r h = reap-Evolves now r h

  cancel_found-Evolves :
      (id : Text) (r : Registry R) (found : Option (Job R))
      → get id r ≡ found
      → Sound r
      → Evolves r.objects (cancel_found id r found).0.objects
  unfolding cancel_found
  cancel_found-Evolves id r none e h = Evolves-refl r.objects h
  cancel_found-Evolves id r (some j) e h = elim (Bool-cases (is_running j.status)) [
    | inr over ↦ rw over (Evolves-refl r.objects h)
    | inl live ↦ elim (Bool-cases j.cancellable) [
      | inr fixed ↦ rw (live, fixed) (Evolves-refl r.objects h)
      | inl open_ ↦
          rw (live, open_)
            (update-Evolves (is_mapped_as id) abort r
              (λ k e'. let same : k ≡ j = cc in abort-Good k (rw same open_)) h)
    ]
  ]

  cancel-Evolves :
      (now : ℕ) (id : Text) (r : Registry R)
      → Sound r
      → Evolves r.objects (cancel now id r).0.objects
  unfolding cancel
  cancel-Evolves now id r h =
      let reaped = reap-Evolves now r h in
      elim (Bool-cases (is_handle id)) [
        | inl e ↦ rw e (
            Evolves-trans r.objects (reap now r).objects _ reaped (
              cancel_found-Evolves id (reap now r) (get id (reap now r)) refl
                (Evolves-IsSound r.objects _ reaped)))
        | inr e ↦ rw e reaped
      ]

  -- A poll says `running` only of a running job.
  reply-running :
      (s : Scrubber) (now : ℕ) (handled : Bool) (found : Option (Job R)) {id kind : Text} {ms : ℤ}
      {p : Option Progress}
      → (if handled then reply_to_poll s now found else refused job_not_found)
        ≡ running_job id kind ms p
      → (j : Job R) × (found ≡ some j) × (is_running j.status ≡ true)
  unfolding reply_to_poll envelope is_running
  reply-running s now handled found e = ground arith

  await_polled-Evolves :
      (s : Scrubber) (now : ℕ) (id : Text) (w : ℕ) (r : Registry R) (reply : Envelope R)
      → (if is_handle id then reply_to_poll s now (get id r) else refused job_not_found) ≡ reply
      → Sound r
      → Evolves r.objects (await_polled id w (r, reply)).0.objects
  unfolding await_polled
  await_polled-Evolves s now id w r (running_job _ _ _ _) e h =
      let (j, found, live) = reply-running s now (is_handle id) (get id r) e in
      update-Evolves (is_mapped_as id) (hold w) r
        (λ k e'. let same : k ≡ j = cc in hold-Good w k (rw same live)) h
  await_polled-Evolves s now id w r reply e h = Evolves-refl r.objects h

  await-Evolves :
      (s : Scrubber) (now : ℕ) (id : Text) (wait_ms : Option ℕ) (w : ℕ) (r : Registry R)
      → Sound r
      → Evolves r.objects (await s now id wait_ms w r).0.objects
  unfolding await poll
  await-Evolves s now id wait_ms w r h = elim (Bool-cases (is_valid_wait wait_ms)) [
    | inr bad ↦ rw bad (Evolves-refl r.objects h)
    | inl valid ↦
        let reaped = reap-Evolves now r h in
        rw valid (
          Evolves-trans r.objects (reap now r).objects _ reaped (
            await_polled-Evolves s now id w (reap now r) _ refl
              (Evolves-IsSound r.objects _ reaped)))
  ]

  step-Evolves :
      (s : Scrubber) (r : Registry R) (e : Event R)
      → Sound r
      → Evolves r.objects (step s r e).objects
  unfolding step finalize fulfil reject expire report
  step-Evolves s r (start_event now kind o) h = start-Evolves s now kind o r h
  step-Evolves s r (poll_event now id) h = poll-Evolves s now id r h
  step-Evolves s r (cancel_event now id) h = cancel-Evolves now id r h
  step-Evolves s r (finalize_event now id) h =
      update-Evolves (is_object id) (finalize_job now) r (λ j _. finalize_job-Good now j) h
  step-Evolves s r (await_event now id wait_ms w) h = await-Evolves s now id wait_ms w r h
  step-Evolves s r (report_event id snapshot) h =
      update-Evolves (is_object id) _ r (λ j _. report-Good snapshot j) h
  step-Evolves s r (fulfil_event id v) h =
      update-Evolves (is_object id) (fulfil_job v) r (λ j _. fulfil_job-Good v j) h
  step-Evolves s r (reject_event id e) h =
      update-Evolves (is_object id) (reject_job s e) r (λ j _. reject_job-Good s e j) h
  step-Evolves s r (expire_event now id w) h =
      update-Evolves (is_object id) (release w) r (λ j _. release-Good w j) h

  -- Along every sequence of events, from a registry of sound jobs: each job object stays in its
  -- place with its handle, a settled one with its status, result and error, a finished one with its
  -- end time; one that left the map or was aborted does not come back from that. Every object, the
  -- new ones too, is sound: a running job is in the map and has no end time, a finished one has no
  -- waiter, an aborted one is cancellable, a cancelled one was aborted and a done one has a result.
  pub run-Evolves :
      (s : Scrubber) (r : Registry R) (es : List (Event R))
      → All IsSound r.objects
      → Evolves r.objects (run s r es).objects
  unfolding run
  run-Evolves s r [] h = Evolves-refl r.objects h
  run-Evolves s r (e ∷ es) h =
      let first = step-Evolves s r e h in
      Evolves-trans r.objects (step s r e).objects _ first
        (run-Evolves s (step s r e) es (Evolves-IsSound r.objects _ first))
