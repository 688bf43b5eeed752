-- ===== src/AsyncJob/Capacity.antt =====
-- The bound on the registry of mcp/ground-control/lib/async-job-registry.js and the handles in it.
use ground_control.Prelude.{
  ℕ, suc, ◌≤◌, ◌<◌, ◌≡◌, ◌≢◌, refl, sym, ap, ◌∙◌, Bool, true, Option, none, some, List, [], ◌∷◌,
  ◌++◌, map, arith, count, All, All-append,
}
use ground_control.Prelude.Text.{Text}
use ground_control.AsyncJob.Handle.{job_id, job_id-injective}
use ground_control.AsyncJob.Job.{Job, Scrubber, Refusal, Envelope, running_job}
use ground_control.AsyncJob.Options.{Options, validate}
use ground_control.AsyncJob.Registry.{
  Registry, update_first, update, is_mapped_as, is_object, unmap, reap_job, reap, get,
  resolve_existing, resolve_idempotent, is_same_attempt, new_job, start_new, start_resolved,
  start_checked, start, poll, abort, cancel_found, cancel, report, add_job, size,
}
use ground_control.AsyncJob.Settling.{
  fulfil_job, reject_job, finalize_job, hold, await_polled, await, release, fulfil, reject,
  finalize, expire, Event, step, run, start_event, poll_event, cancel_event, finalize_event,
  await_event, report_event, fulfil_event, reject_event, expire_event,
}

-- The handle was made by this registry, from a counter that it has passed.
abbrev pub IsIssued : ℕ → Text → Type 0
IsIssued seq id = (now n : ℕ) × (id ≡ job_id now n) × (n ≤ seq)

abbrev pub Distinct : List Text → Type 0
Distinct [] = Unit
Distinct (id ∷ rest) = All (λ other. id ≢ other) rest × Distinct rest

module _ {R : Type 0} where
  abbrev pub ids : List (Job R) → List Text
  ids [] = []
  ids (j ∷ js) = j.id ∷ ids js

  -- The map holds no more than its capacity, and no two objects share a handle.
  pub record IsBounded (r : Registry R) : Type 0 where
    pub fits : size r ≤ r.capacity
    pub issued : All (IsIssued r.seq) (ids r.objects)
    pub distinct : Distinct (ids r.objects)

  -- What a change keeps that adds no object.
  record Quiet (r q : Registry R) : Type 0 where
    no_more : size q ≤ size r
    same_ids : ids q.objects ≡ ids r.objects
    same_seq : q.seq ≡ r.seq
    same_capacity : q.capacity ≡ r.capacity

  Quiet-refl : (r : Registry R) → Quiet r r
  Quiet-refl r = ground arith

  Quiet-trans : (r q p : Registry R) → Quiet r q → Quiet q p → Quiet r p
  Quiet-trans r q p a b = ground arith

  Quiet-IsBounded : (r q : Registry R) → Quiet r q → IsBounded r → IsBounded q
  Quiet-IsBounded r q a b = record {
    fits = omega (arith, a.no_more, a.same_capacity, b.fits);
    issued = rw (a.same_ids, a.same_seq) b.issued;
    distinct = rw (a.same_ids) b.distinct;
  }

  abbrev Keeps : (Job R → Job R) → Type 0
  Keeps f = (j : Job R) → ((f j).id ≡ j.id) × ((f j).mapped ≡ true → j.mapped ≡ true)

  update_first-Quiet :
      (p : Job R → Bool) (f : Job R → Job R) (js : List (Job R))
      → Keeps f
      → (count (λ j. j.mapped) (update_first p f js) ≤ count (λ j. j.mapped) js)
        × (ids (update_first p f js) ≡ ids js)
  unfolding update_first
  update_first-Quiet p f [] keeps = ground arith
  update_first-Quiet p f (j ∷ js) keeps = ground (arith, keeps j, update_first-Quiet p f js keeps)

  update-Quiet :
      (p : Job R → Bool) (f : Job R → Job R) (r : Registry R) → Keeps f → Quiet r (update p f r)
  unfolding update
  update-Quiet p f r keeps = ground (arith, update_first-Quiet p f r.objects keeps)

  map-reap_job :
      (now : ℕ) (js : List (Job R))
      → (count (λ j. j.mapped) (map (reap_job now) js) ≤ count (λ j. j.mapped) js)
        × (ids (map (reap_job now) js) ≡ ids js)
  unfolding reap_job
  map-reap_job now [] = ground arith
  map-reap_job now (j ∷ js) = ground (arith, map-reap_job now js)

  reap-Quiet : (now : ℕ) (r : Registry R) → Quiet r (reap now r)
  unfolding reap
  reap-Quiet now r = ground (arith, map-reap_job now r.objects)

  unmap-Quiet : (p : Job R → Bool) (r : Registry R) → Quiet r (update p unmap r)
  unmap-Quiet p r = update-Quiet p unmap r (λ j. ground arith)

  resolve_idempotent-Quiet :
      (s : Scrubber) (now : ℕ) (o : Options R) (r : Registry R)
      → Quiet r (resolve_idempotent s now o r).0
  unfolding resolve_idempotent resolve_existing
  resolve_idempotent-Quiet s now o r =
      ground (arith, Quiet-refl r, unmap-Quiet (is_same_attempt o) r)

  ids-append : (js : List (Job R)) (j : Job R) → ids (js ++ j ∷ []) ≡ ids js ++ j.id ∷ []
  ids-append [] j = refl
  ids-append (k ∷ js) j = ap (λ l. k.id ∷ l) (ids-append js j)

  count-append :
      (js : List (Job R)) (j : Job R)
      → count (λ k. k.mapped) (js ++ j ∷ []) ≤ suc (count (λ k. k.mapped) js)
  count-append [] j = ground arith
  count-append (k ∷ js) j = ground (arith, count-append js j)

Distinct-append :
    (seq now : ℕ) (l : List Text)
    → All (IsIssued seq) l
    → Distinct l
    → Distinct (l ++ job_id now (suc seq) ∷ [])
Distinct-append seq now [] h d = (tt, tt)
Distinct-append seq now (id ∷ l) (h, hs) (fresh, d) = (
  All-append (λ other. id ≢ other) l (job_id now (suc seq) ∷ []) fresh (differs h, tt),
  Distinct-append seq now l hs d,
)
  where
    differs : IsIssued seq id → id ≢ job_id now (suc seq)
    differs (now', n, e, le) same =
        absurd (omega (arith, job_id-injective now' now n (suc seq) (sym e ∙ same)))

IsIssued-suc : (seq : ℕ) (l : List Text) → All (IsIssued seq) l → All (IsIssued (suc seq)) l
IsIssued-suc seq [] h = tt
IsIssued-suc seq (id ∷ l) ((now, n, e, le), hs) = ((now, n, e, omega arith), IsIssued-suc seq l hs)

module _ {R : Type 0} where
  pub reap-IsBounded : (now : ℕ) (r : Registry R) → IsBounded r → IsBounded (reap now r)
  reap-IsBounded now r = Quiet-IsBounded r (reap now r) (reap-Quiet now r)

  pub add_job-IsBounded :
      (now : ℕ) (kind : Text) (o : Options R) (r : Registry R)
      → size r < r.capacity
      → IsBounded r
      → IsBounded (add_job (new_job now (suc r.seq) kind o) r)
  unfolding add_job new_job
  add_job-IsBounded now kind o r room b = record {
    fits = omega (arith, room, count-append r.objects (new_job now (suc r.seq) kind o));
    issued = rw (ids-append r.objects (new_job now (suc r.seq) kind o)) (
        All-append (IsIssued (suc r.seq)) (ids r.objects) (job_id now (suc r.seq) ∷ [])
          (IsIssued-suc r.seq (ids r.objects) b.issued) ((now, suc r.seq, refl, omega arith), tt));
    distinct =
        rw (ids-append r.objects (new_job now (suc r.seq) kind o))
          (Distinct-append r.seq now (ids r.objects) b.issued b.distinct);
  }

  start_new-IsBounded :
      (s : Scrubber) (now : ℕ) (kind : Text) (o : Options R) (r : Registry R)
      → IsBounded r
      → IsBounded (start_new s now kind o r).0
  unfolding start_new
  start_new-IsBounded s now kind o r b = ground (arith, add_job-IsBounded now kind o r)

  start_resolved-IsBounded :
      (s : Scrubber) (now : ℕ) (kind : Text) (o : Options R)
      (found : Registry R × Option (Envelope R))
      → IsBounded found.0
      → IsBounded (start_resolved s now kind o found).0
  unfolding start_resolved
  start_resolved-IsBounded s now kind o (r, none) b = start_new-IsBounded s now kind o r b
  start_resolved-IsBounded s now kind o (r, some reply) b = b

  start_checked-IsBounded :
      (s : Scrubber) (now : ℕ) (kind : Text) (o : Options R) (r : Registry R) (e : Option Refusal)
      → IsBounded r
      → IsBounded (start_checked s now kind o r e).0
  unfolding start_checked
  start_checked-IsBounded s now kind o r (some e) b = b
  start_checked-IsBounded s now kind o r none b =
      start_resolved-IsBounded s now kind o (resolve_idempotent s now o (reap now r)) (
        Quiet-IsBounded r _
          (Quiet-trans r (reap now r) _ (reap-Quiet now r)
            (resolve_idempotent-Quiet s now o (reap now r)))
          b)

  poll-Quiet : (s : Scrubber) (now : ℕ) (id : Text) (r : Registry R) → Quiet r (poll s now id r).0
  unfolding poll
  poll-Quiet s now id r = reap-Quiet now r

  cancel_found-Quiet :
      (id : Text) (r : Registry R) (found : Option (Job R)) → Quiet r (cancel_found id r found).0
  unfolding cancel_found
  cancel_found-Quiet id r none = Quiet-refl r
  cancel_found-Quiet id r (some j) =
      ground (arith, Quiet-refl r, update-Quiet (is_mapped_as id) abort r (λ j. ground arith))

  cancel-Quiet : (now : ℕ) (id : Text) (r : Registry R) → Quiet r (cancel now id r).0
  unfolding cancel
  cancel-Quiet now id r = ground (
    arith,
    reap-Quiet now r,
    Quiet-trans r (reap now r) (cancel_found id (reap now r) (get id (reap now r))).0,
    cancel_found-Quiet id (reap now r) (get id (reap now r)),
  )

  await_polled-Quiet :
      (id : Text) (w : ℕ) (r : Registry R) (reply : Envelope R)
      → Quiet r (await_polled id w (r, reply)).0
  unfolding await_polled
  await_polled-Quiet id w r (running_job _ _ _ _) =
      update-Quiet (is_mapped_as id) (hold w) r (λ j. ground arith)
  await_polled-Quiet id w r reply = Quiet-refl r

  await-Quiet :
      (s : Scrubber) (now : ℕ) (id : Text) (wait_ms : Option ℕ) (w : ℕ) (r : Registry R)
      → Quiet r (await s now id wait_ms w r).0
  unfolding await
  await-Quiet s now id wait_ms w r =
      let polled : Quiet r (poll s now id r).0 = poll-Quiet s now id r in
      ground (
        arith,
        Quiet-refl r,
        Quiet-trans r (poll s now id r).0 (await_polled id w (poll s now id r)).0 polled
            (await_polled-Quiet id w (poll s now id r).0 (poll s now id r).1),
      )

  -- Every event keeps the registry within its capacity and its handles distinct.
  pub step-IsBounded :
      (s : Scrubber) (r : Registry R) (e : Event R) → IsBounded r → IsBounded (step s r e)
  unfolding step start finalize fulfil reject expire report fulfil_job reject_job finalize_job
  step-IsBounded s r (start_event now kind o) b =
      start_checked-IsBounded s now kind o r (validate o) b
  step-IsBounded s r (poll_event now id) b = Quiet-IsBounded r _ (poll-Quiet s now id r) b
  step-IsBounded s r (cancel_event now id) b = Quiet-IsBounded r _ (cancel-Quiet now id r) b
  step-IsBounded s r (finalize_event now id) b =
      Quiet-IsBounded r _ (update-Quiet (is_object id) (finalize_job now) r (λ j. ground arith)) b
  step-IsBounded s r (await_event now id wait_ms w) b =
      Quiet-IsBounded r _ (await-Quiet s now id wait_ms w r) b
  step-IsBounded s r (report_event id snapshot) b =
      Quiet-IsBounded r _ (update-Quiet (is_object id) _ r (λ j. ground arith)) b
  step-IsBounded s r (fulfil_event id v) b =
      Quiet-IsBounded r _ (update-Quiet (is_object id) (fulfil_job v) r (λ j. ground arith)) b
  step-IsBounded s r (reject_event id e) b =
      Quiet-IsBounded r _ (update-Quiet (is_object id) (reject_job s e) r (λ j. ground arith)) b
  step-IsBounded s r (expire_event now id w) b =
      Quiet-IsBounded r _ (update-Quiet (is_object id) (release w) r (λ j. ground arith)) b

  -- From a bounded registry, every sequence of events keeps the map within its capacity, and no two
  -- job objects ever share a handle, so that a new job never takes the place of another.
  pub run-IsBounded :
      (s : Scrubber) (r : Registry R) (es : List (Event R)) → IsBounded r → IsBounded (run s r es)
  unfolding run
  run-IsBounded s r [] b = b
  run-IsBounded s r (e ∷ es) b = run-IsBounded s (step s r e) es (step-IsBounded s r e b)
