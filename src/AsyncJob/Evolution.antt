-- ===== src/AsyncJob/Evolution.antt =====
-- How the job objects of mcp/ground-control/lib/async-job-registry.js change from one event to the
-- next.
use ground_control.Prelude.{
  ℕ, ◌≡◌, Bool, true, false, none, some, List, [], ◌∷◌, ◌++◌, map, arith, Bool-cases, inl, inr,
  find, is_some, All, Option,
}
use ground_control.AsyncJob.Job.{
  Snapshot, bound_progress, done, cancelled, is_running, Scrubber, Failure, Job,
}
use ground_control.AsyncJob.Registry.{update_first, unmap, reap_job, abort}
use ground_control.AsyncJob.Settling.{fulfil_job, reject_job, finalize_job, hold, release}

module _ {R : Type 0} where
  -- What holds of every job object.
  pub record IsSound (j : Job R) : Type 0 where
    pub live : is_running j.status ≡ true → (j.finished_at ≡ none) × (j.mapped ≡ true)
    pub quiet : is_some j.finished_at ≡ true → j.waiters ≡ []
    pub asked : j.aborted ≡ true → j.cancellable ≡ true
    pub stopped : j.status ≡ cancelled → j.aborted ≡ true
    pub answered : j.status ≡ done → is_some j.result ≡ true

  -- `k` is a later state of `j`: a settled job keeps its outcome, and a finished one its end.
  pub record Advances (j k : Job R) : Type 0 where
    pub same_id : k.id ≡ j.id
    pub same_start : k.started_at ≡ j.started_at
    pub settled :
        is_running j.status ≡ false
        → (k.status ≡ j.status) × (k.result ≡ j.result) × (k.error ≡ j.error)
    pub finished : is_some j.finished_at ≡ true → k.finished_at ≡ j.finished_at
    pub stays_out : j.mapped ≡ false → k.mapped ≡ false
    pub stays_aborted : j.aborted ≡ true → k.aborted ≡ true

  abbrev pub Good : Job R → Job R → Type 0
  Good j k = Advances j k × IsSound k

  -- The objects before, each in a later state, and then new ones. All are sound.
  abbrev pub Evolves : List (Job R) → List (Job R) → Type 0
  Evolves [] ks = All IsSound ks
  Evolves (j ∷ js) [] = ⊥
  Evolves (j ∷ js) (k ∷ ks) = Good j k × Evolves js ks

  pub Advances-refl : (j : Job R) → Advances j j
  Advances-refl j = ground arith

  pub Advances-trans : (j k l : Job R) → Advances j k → Advances k l → Advances j l
  Advances-trans j k l p q = ground arith

  pub Evolves-refl : (js : List (Job R)) → All IsSound js → Evolves js js
  Evolves-refl [] h = tt
  Evolves-refl (j ∷ js) h = ((Advances-refl j, h.0), Evolves-refl js h.1)

  pub Evolves-IsSound : (js ks : List (Job R)) → Evolves js ks → All IsSound ks
  Evolves-IsSound [] ks h = h
  Evolves-IsSound (j ∷ js) [] h = elim h [ ]
  Evolves-IsSound (j ∷ js) (k ∷ ks) h = (h.0.1, Evolves-IsSound js ks h.1)

  pub Evolves-trans : (js ks ls : List (Job R)) → Evolves js ks → Evolves ks ls → Evolves js ls
  Evolves-trans [] ks ls p q = Evolves-IsSound ks ls q
  Evolves-trans (j ∷ js) [] ls p q = elim p [ ]
  Evolves-trans (j ∷ js) (k ∷ ks) [] p q = elim q [ ]
  Evolves-trans (j ∷ js) (k ∷ ks) (l ∷ ls) p q =
      ((Advances-trans j k l p.0.0 q.0.0, q.0.1), Evolves-trans js ks ls p.1 q.1)

  pub Evolves-append :
      (js new : List (Job R)) → All IsSound js → All IsSound new → Evolves js (js ++ new)
  Evolves-append [] new h n = n
  Evolves-append (j ∷ js) new h n = ((Advances-refl j, h.0), Evolves-append js new h.1 n)

  -- To change the object that a test finds, it is enough that the change is good for that one.
  pub Evolves-update_first :
      (p : Job R → Bool) (f : Job R → Job R) (js : List (Job R))
      → ((j : Job R) → find p js ≡ some j → IsSound j → Good j (f j))
      → All IsSound js
      → Evolves js (update_first p f js)
  unfolding update_first
  Evolves-update_first p f [] good h = tt
  Evolves-update_first p f (j ∷ js) good h = elim (Bool-cases (p j)) [
    | inl e ↦ rw e (good j (rw e) h.0, Evolves-refl js h.1)
    | inr e ↦
        rw e
          ((Advances-refl j, h.0), Evolves-update_first p f js (λ k found. good k (rw e found)) h.1)
  ]

  pub Evolves-map :
      (f : Job R → Job R) (js : List (Job R))
      → ((j : Job R) → IsSound j → Good j (f j))
      → All IsSound js
      → Evolves js (map f js)
  Evolves-map f [] good h = tt
  Evolves-map f (j ∷ js) good h = (good j h.0, Evolves-map f js good h.1)

  pub reap_job-Good : (now : ℕ) (j : Job R) → IsSound j → Good j (reap_job now j)
  unfolding reap_job is_running
  reap_job-Good now j h = ground arith

  pub fulfil_job-Good : (v : R) (j : Job R) → IsSound j → Good j (fulfil_job v j)
  unfolding fulfil_job
  fulfil_job-Good v j h = ground arith

  pub reject_job-Good :
      (s : Scrubber) (e : Failure) (j : Job R) → IsSound j → Good j (reject_job s e j)
  unfolding reject_job
  reject_job-Good s e j h = ground arith

  pub finalize_job-Good : (now : ℕ) (j : Job R) → IsSound j → Good j (finalize_job now j)
  unfolding finalize_job
  finalize_job-Good now j h = ground arith

  pub release-Good : (w : ℕ) (j : Job R) → IsSound j → Good j (release w j)
  release-Good w j h = ground arith

  pub hold-Good : (w : ℕ) (j : Job R) → is_running j.status ≡ true → IsSound j → Good j (hold w j)
  unfolding is_running
  hold-Good w j e h = ground arith

  pub abort-Good : (j : Job R) → j.cancellable ≡ true → IsSound j → Good j (abort j)
  abort-Good j e h = ground arith

  pub unmap-Good : (j : Job R) → is_running j.status ≡ false → IsSound j → Good j (unmap j)
  unmap-Good j e h = ground arith

  pub report-Good :
      (snapshot : Option Snapshot) (j : Job R)
      → IsSound j
      → Good j (record j { progress = bound_progress snapshot })
  report-Good snapshot j h = ground arith
