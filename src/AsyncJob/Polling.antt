-- ===== src/AsyncJob/Polling.antt =====
-- What a poll answers in mcp/ground-control/lib/async-job-registry.js: how long a job can be found,
-- and that the handle of a new job finds it.
use Prim.Native.Nat.{◌^◌}
use ground_control.Prelude.{
  ℕ, suc, ◌≡◌, ◌≢◌, refl, ◌∙◌, subst, true, false, none, some, List, [], ◌∷◌, ◌++◌, map, arith,
  if◌then◌else◌, find, Bool-cases, inl, inr, All, ◌⊎◌, ◌<◌, sym, Option, ◌≤◌, ltb, ◌+◌, ap,
}
use ground_control.Prelude.Text.{Text, text_eq_iff, text_eq_refl}
use ground_control.AsyncJob.Handle.{job_id, is_handle, job_id-injective, is_handle-job_id}
use ground_control.AsyncJob.Job.{
  Job, Scrubber, refused, job_not_found, envelope, running_job, Envelope, end_time,
}
use ground_control.AsyncJob.Registry.{
  Registry, is_mapped_as, reap_job, reap, get, poll, is_expired, reply_to_poll, start_new, start,
  add_job, start_checked, new_job, start_resolved, resolve_idempotent, is_contended, size,
  bound_kind,
}
use ground_control.AsyncJob.Capacity.{
  IsBounded, IsIssued, ids, Distinct, reap-IsBounded, add_job-IsBounded,
}
use ground_control.AsyncJob.Options.{Options, validate}
use ground_control.Prelude.Int.{sub_ℕ}
use ground_control.AsyncJob.Shown.{IsShown, envelope-IsShown}

module _ {R : Type 0} where
  -- None of the handles is `id`.
  absent :
      (now : ℕ) (id : Text) (js : List (Job R))
      → All (λ other. id ≢ other) (ids js)
      → find (is_mapped_as id) (map (reap_job now) js) ≡ none
  unfolding reap_job
  absent now id [] h = refl
  absent now id (j ∷ js) h = ground (arith, text_eq_iff j.id id, absent now id js)

  find-reap :
      (now : ℕ) (id : Text) (js : List (Job R)) (j : Job R)
      → Distinct (ids js)
      → find (is_mapped_as id) js ≡ some j
      → find (is_mapped_as id) (map (reap_job now) js)
        ≡ (if is_expired now j.finished_at then none else some j)
  unfolding reap_job
  find-reap now id [] j d h = cc
  find-reap now id (k ∷ js) j d h = elim (Bool-cases (is_mapped_as id k)) [
    | inl here ↦
        let same : k ≡ j = ground arith in
        let named : k.id ≡ id = (text_eq_iff k.id id).0 (ground arith) in
        ground (arith, absent now id js (subst (λ x. All (λ other. x ≢ other) (ids js)) named d.0))
    | inr there ↦ ground (arith, find-reap now id js j d.1)
  ]

  find-reap_none :
      (now : ℕ) (id : Text) (js : List (Job R))
      → find (is_mapped_as id) js ≡ none
      → find (is_mapped_as id) (map (reap_job now) js) ≡ none
  unfolding reap_job
  find-reap_none now id [] h = refl
  find-reap_none now id (k ∷ js) h = ground (arith, find-reap_none now id js)

  -- What the poll tells of the job: what it is, with the time to its end or, before that, to now;
  -- and nothing once more than 1800000 ms have passed since its end.
  abbrev pub IsPolled : Scrubber → ℕ → Job R → Envelope R → Type 0
  IsPolled s now j e =
      ((j.finished_at ≡ none) × IsShown s now j e)
      ⊎ ((end : ℕ) × (j.finished_at ≡ some end)
          × (((now ≤ end + 1800000) × IsShown s end j e)
              ⊎ ((end + 1800000 < now) × (e ≡ refused job_not_found))))

  expired-IsPolled :
      (s : Scrubber) (now : ℕ) (j : Job R) (end : Option ℕ)
      → j.finished_at ≡ end
      → IsPolled s now j (if is_expired now end then refused job_not_found else envelope s now j)
  unfolding end_time is_expired
  expired-IsPolled s now j none same = inl (
    same,
    subst (λ t. IsShown s (end_time t now) j (envelope s now j)) same (envelope-IsShown s now j),
  )
  expired-IsPolled s now j (some end) same =
      let shown =
        subst (λ t. IsShown s (end_time t now) j (envelope s now j)) same
          (envelope-IsShown s now j) in
      elim (Bool-cases (ltb (end + 1800000) now)) [
        | inl late ↦ inr (end, same, inr (ground (arith, late), rw late refl))
        | inr early ↦ inr (
          end,
          same,
          inl (
            ground (arith, early),
            subst (IsShown s end j)
                (sym (ap (λ b. if b then refused job_not_found else envelope s now j) early)) shown,
          ),
        )
      ]

  poll_lem :
      (s : Scrubber) (now : ℕ) (id : Text) (r : Registry R) (j : Job R)
      → IsBounded r
      → is_handle id ≡ true
      → get id r ≡ some j
      → (poll s now id r).1
        ≡ (if is_expired now j.finished_at then refused job_not_found else envelope s now j)
  unfolding poll reap reply_to_poll
  poll_lem s now id r j b handle h = ground (arith, find-reap now id r.objects j b.distinct h)

  -- Of a job in the map of a bounded registry, a poll with its well-formed handle tells what became
  -- of the job: that it is running, with its progress, or its result, its cancellation or its
  -- failure, of which a sensitive text is told as redacted. A job that has no end yet is always
  -- told of; one that has ended is told of until 1800000 ms after its end, and from then on the poll
  -- gives `job_not_found`.
  pub poll_found :
      (s : Scrubber) (now : ℕ) (id : Text) (r : Registry R) (j : Job R)
      → IsBounded r
      → is_handle id ≡ true
      → get id r ≡ some j
      → IsPolled s now j (poll s now id r).1
  poll_found s now id r j b handle h =
      subst (IsPolled s now j) (sym (poll_lem s now id r j b handle h))
        (expired-IsPolled s now j j.finished_at refl)

  -- A handle that is malformed or that no job in the map has is answered by `job_not_found`.
  pub poll_missing :
      (s : Scrubber) (now : ℕ) (id : Text) (r : Registry R)
      → (is_handle id ≡ false) ⊎ (get id r ≡ none)
      → (poll s now id r).1 ≡ refused job_not_found
  unfolding poll reap reply_to_poll
  poll_missing s now id r h = ground (arith, find-reap_none now id r.objects)

  find-append :
      (id : Text) (js : List (Job R)) (j : Job R)
      → All (λ other. id ≢ other) (ids js)
      → is_mapped_as id j ≡ true
      → find (is_mapped_as id) (js ++ j ∷ []) ≡ some j
  find-append id [] j h e = ground arith
  find-append id (k ∷ js) j h e = ground (arith, text_eq_iff k.id id, find-append id js j)

fresh :
    (seq now : ℕ) (l : List Text)
    → All (IsIssued seq) l
    → All (λ other. job_id now (suc seq) ≢ other) l
fresh seq now [] h = tt
fresh seq now (id ∷ l) ((now', n, e, le), h) = (
  (λ same. absurd (omega (arith, job_id-injective now now' (suc seq) n (same ∙ e)))),
  fresh seq now l h,
)

module _ {R : Type 0} where
  start_new-poll :
      (s : Scrubber) (now later : ℕ) (kind : Text) (o : Options R) (r : Registry R)
      → IsBounded r
      → is_contended o r ≡ false
      → size r < r.capacity
      → now < 36 ^ 11
      → suc r.seq < 36 ^ 11
      → let id = job_id now (suc r.seq) in
        (poll s later id (start_new s now kind o r).0).1
        ≡ running_job id (bound_kind kind) (sub_ℕ later now) none
  unfolding start_new add_job new_job poll reap reap_job reply_to_poll is_expired envelope
  start_new-poll s now later kind o r b free room t n =
      let id = job_id now (suc r.seq) in
      let j = new_job now (suc r.seq) kind o in
      let others : All (λ other. id ≢ other) (ids r.objects) =
        fresh r.seq now (ids r.objects) b.issued in
      ground (
        arith,
        is_handle-job_id now (suc r.seq) t n,
        find-reap later id (r.objects ++ j ∷ []) j (add_job-IsBounded now kind o r room b).distinct
            (find-append id r.objects j others (text_eq_refl id)),
      )

  start_unkeyed :
      (s : Scrubber) (now : ℕ) (kind : Text) (o : Options R) (r : Registry R)
      → validate o ≡ none
      → o.idempotency_key ≡ none
      → start s now kind o r ≡ start_new s now kind o (reap now r)
  unfolding start start_checked start_resolved resolve_idempotent
  start_unkeyed s now kind o r valid unkeyed = ground arith

  -- In a bounded registry, with the clock and the counter below 36 ^ 11, a start without an
  -- idempotency key that is valid, not contended and within the capacity once the expired jobs are
  -- gone makes a job that a poll finds at any later time, running since the
  -- start, under the handle made from the clock and the next counter value.
  pub start-poll :
      (s : Scrubber) (now later : ℕ) (kind : Text) (o : Options R) (r : Registry R)
      → IsBounded r
      → validate o ≡ none
      → o.idempotency_key ≡ none
      → is_contended o (reap now r) ≡ false
      → size (reap now r) < r.capacity
      → now < 36 ^ 11
      → suc r.seq < 36 ^ 11
      → let id = job_id now (suc r.seq) in
        (poll s later id (start s now kind o r).0).1
        ≡ running_job id (bound_kind kind) (sub_ℕ later now) none
  unfolding reap
  start-poll s now later kind o r b valid unkeyed free room t n =
      rw (start_unkeyed s now kind o r valid unkeyed)
        (start_new-poll s now later kind o (reap now r) (reap-IsBounded now r b) free room t n)
