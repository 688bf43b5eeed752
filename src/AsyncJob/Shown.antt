-- ===== src/AsyncJob/Shown.antt =====
-- What the envelopes of mcp/ground-control/lib/async-job-registry.js are to show of a job, said
-- without the program's own envelope.
use ground_control.Prelude.{
  ℕ, Option, none, some, true, false, ◌≡◌, ◌⊎◌, inl, inr, refl, arith, Bool-cases,
}
use ground_control.Prelude.Text.{Text, codes}
use ground_control.AsyncJob.Job.{
  Scrubber, safe_error, envelope_of, is_running, Job, stored_error, envelope, Envelope, Status,
  end_time, done, running, done_job, running_job, cancelled, cancelled_job, failed, failed_job,
}
use ground_control.Prelude.Int.{sub_ℕ}

-- The text of a failure: the stored one, or the default where none is stored.
abbrev IsStored : Option Text → Text → Type 0
IsStored error raw = (error ≡ some raw) ⊎ ((error ≡ none) × (raw ≡ codes "background job failed"))

-- What is told of a failure: nothing of a sensitive text, the bounded text of any other.
abbrev pub IsTold : Scrubber → Option Text → Text → Type 0
IsTold s error told =
    (raw : Text) × IsStored error raw
    × (((s.detect_sensitive raw ≡ true) × (told ≡ codes "<redacted>"))
        ⊎ ((s.detect_sensitive raw ≡ false) × (told ≡ s.bound_message raw)))

module _ {R : Type 0} where
  -- The envelope of a job that has settled, with the time of its end.
  abbrev pub IsEnd : Scrubber → (end : ℕ) → Job R → Envelope R → Type 0
  IsEnd s end j e =
      ((j.status ≡ done) × (e ≡ done_job j.id j.kind (sub_ℕ end j.started_at) j.result))
      ⊎ (((j.status ≡ cancelled) × (e ≡ cancelled_job j.id j.kind (sub_ℕ end j.started_at)))
          ⊎ ((j.status ≡ failed)
              × (told : Text) × IsTold s j.error told
              × (e ≡ failed_job j.id j.kind (sub_ℕ end j.started_at) told j.diagnostics)))

  -- The envelope of any job, with the time of its end, or of the poll before it.
  abbrev pub IsShown : Scrubber → (end : ℕ) → Job R → Envelope R → Type 0
  IsShown s end j e =
      ((j.status ≡ running) × (e ≡ running_job j.id j.kind (sub_ℕ end j.started_at) j.progress))
      ⊎ IsEnd s end j e

safe_error-IsTold :
    (s : Scrubber) (error : Option Text) → IsTold s error (safe_error s (stored_error error))
unfolding safe_error stored_error
safe_error-IsTold s none = elim (Bool-cases (s.detect_sensitive (codes "background job failed"))) [
  | inl hit ↦ (codes "background job failed", inr (refl, refl), inl (hit, rw hit refl))
  | inr miss ↦ (codes "background job failed", inr (refl, refl), inr (miss, rw miss refl))
]
safe_error-IsTold s (some raw) = elim (Bool-cases (s.detect_sensitive raw)) [
  | inl hit ↦ (raw, inl refl, inl (hit, rw hit refl))
  | inr miss ↦ (raw, inl refl, inr (miss, rw miss refl))
]

module _ {R : Type 0} where
  envelope_of-IsShown :
      (s : Scrubber) (now : ℕ) (j : Job R) (st : Status)
      → j.status ≡ st
      → IsShown s (end_time j.finished_at now) j (envelope_of s now j st)
  unfolding envelope_of
  envelope_of-IsShown s now j running same = inl (same, refl)
  envelope_of-IsShown s now j done same = inr (inl (same, refl))
  envelope_of-IsShown s now j cancelled same = inr (inr (inl (same, refl)))
  envelope_of-IsShown s now j failed same =
      inr (inr (inr (same, _, safe_error-IsTold s j.error, refl)))

  pub envelope-IsShown :
      (s : Scrubber) (now : ℕ) (j : Job R)
      → IsShown s (end_time j.finished_at now) j (envelope s now j)
  unfolding envelope
  envelope-IsShown s now j = envelope_of-IsShown s now j j.status refl

  -- A settled job shows its end.
  pub shown-IsEnd :
      (s : Scrubber) (end : ℕ) (j : Job R) (e : Envelope R)
      → is_running j.status ≡ false
      → IsShown s end j e
      → IsEnd s end j e
  unfolding is_running
  shown-IsEnd s end j e over (inl (same, _)) = absurd (ground (arith, same, over))
  shown-IsEnd s end j e over (inr ends) = ends
