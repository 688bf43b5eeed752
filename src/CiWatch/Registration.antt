-- ===== src/CiWatch/Registration.antt =====
-- The start of the watch of mcp/ground-control/lib/ci-watcher.js ends, and what it starts with.
use ground_control.CiWatch.Start.{
  register, start_on_head, start_bound, start_watch, WatchRequest, WatchHost, is_valid_request,
  deadline_of, Registered, expected_head, is_head_sha, or_head, lookup_fails, listed_runs,
  start_on_ids, start_on_runs, StartResult, started, first_loop, settings_of, is_valid_run_id,
  seconds_of, is_positive_number,
}
use ground_control.Prelude.{
  ℕ, Option, ◌<◌, ◌≤◌, ◌≡◌, ◌+◌, is_some, true, arith, some, length, suc, Bool-cases, Option-cases,
  false, leb, inl, inr, none, subst, refl, ltb, [], zero, List, ◌∷◌, ◌⊎◌, ◌∙◌, ap, sym,
}
use ground_control.CiWatch.Watch.{Settings, Loop}
use ground_control.Prelude.Text.{Text}
use ground_control.CiWatch.Run.{select_runs, database_ids, ListedRun}

at_deadline : (d t : ℕ) → d ≤ t → leb d t ≡ true
at_deadline d t h = ground arith

register_ends :
    (n fuel : ℕ) (h : WatchHost) (sha : Text) (deadline k : ℕ)
    → n < fuel
    → deadline ≤ h.clock (k + n)
    → (r : Registered) × (register fuel h sha deadline k ≡ some r)
unfolding register
register_ends n zero h sha deadline k lt late = elim lt [ ]
register_ends zero (suc fuel) h sha deadline k lt late =
    let over : leb deadline (h.clock k) ≡ true =
      at_deadline deadline (h.clock k) (subst (λ m. deadline ≤ h.clock m) (omega arith) late) in
    elim (Option-cases (h.listing k)) [
      | inl fails ↦ (lookup_fails, rw (fails, register) refl)
      | inr (runs, found) ↦ elim (Bool-cases (ltb 0 (length (select_runs runs sha)))) [
        | inl listed ↦ (listed_runs (select_runs runs sha), rw (found, register, listed) refl)
        | inr empty ↦ (listed_runs [], rw (found, register, empty, over) refl)
      ]
    ]
register_ends (suc n) (suc fuel) h sha deadline k lt late =
    let (r, e) =
      register_ends n fuel h sha deadline (suc k) (omega arith)
        (subst (λ m. deadline ≤ h.clock m) (omega arith) late) in
    elim (Option-cases (h.listing k)) [
      | inl fails ↦ (lookup_fails, rw (fails, register) refl)
      | inr (runs, found) ↦ elim (Bool-cases (ltb 0 (length (select_runs runs sha)))) [
        | inl listed ↦ (listed_runs (select_runs runs sha), rw (found, register, listed) refl)
        | inr empty ↦ elim (Bool-cases (leb deadline (h.clock k))) [
          | inl over ↦ (listed_runs [], rw (found, register, empty, over) refl)
          | inr early ↦ (r, rw (found, register, empty, early) e)
        ]
      ]
    ]

head_ends :
    (n fuel : ℕ) (q : WatchRequest) (h : WatchHost) (sha : Text)
    → n < fuel
    → deadline_of q h.start_ms ≤ h.clock n
    → is_some (start_on_head fuel q h sha) ≡ true
unfolding start_on_head
head_ends n fuel q h sha lt late =
    let (r, e) =
      register_ends n fuel h sha (deadline_of q h.start_ms) 0 lt
        (subst (λ m. deadline_of q h.start_ms ≤ h.clock m) (omega arith) late) in
    elim (Bool-cases (is_head_sha sha)) [
      | inl good ↦ rw (good, e) refl
      | inr bad ↦ rw (start_on_head, bad) refl
    ]

bound_ends :
    (n fuel : ℕ) (q : WatchRequest) (h : WatchHost) (head : Option Text) (id : Option (Option ℕ))
    → n < fuel
    → deadline_of q h.start_ms ≤ h.clock n
    → is_some (start_bound fuel q h head id) ≡ true
unfolding start_bound
bound_ends n fuel q h head (some id) lt late = refl
bound_ends n fuel q h head none lt late = elim (Option-cases (or_head head h.branch_head)) [
  | inl lost ↦ rw (start_bound, lost) refl
  | inr (sha, found) ↦ rw (start_bound, found) (head_ends n fuel q h sha lt late)
]

-- As soon as one turn of the wait for a first run comes at or after the registration deadline, the
-- start of the watch has an outcome: fuel for the turns up to it is enough.
pub start_watch_ends :
    (n fuel : ℕ) (q : WatchRequest) (h : WatchHost)
    → n < fuel
    → deadline_of q h.start_ms ≤ h.clock n
    → is_some (start_watch fuel q h) ≡ true
unfolding start_watch
start_watch_ends n fuel q h lt late =
    ground (arith, bound_ends n fuel q h (expected_head q.expected_head_sha) q.run_id lt late)

-- A watch of the run that the request names, and of no other: the discovery is closed.
abbrev pub IsPinned : WatchRequest → Settings → Loop → Type 0
IsPinned q c l =
    (id : ℕ) × (q.run_id ≡ some (some id))
    × (0 < id)
    × (l.watched ≡ id ∷ [])
    × (l.discovery_closed ≡ true)
    × (c.head ≡ expected_head q.expected_head_sha)

-- A watch of the runs that a listing of the host has for the head, at least one, with the discovery
-- open; the head is a full commit name, the expected one or else that of the branch.
abbrev pub IsRegistered : WatchRequest → WatchHost → Settings → Loop → Type 0
IsRegistered q h c l =
    (sha : Text) × (or_head (expected_head q.expected_head_sha) h.branch_head ≡ some sha)
    × (is_head_sha sha ≡ true)
    × (c.head ≡ some sha)
    × (q.run_id ≡ none)
    × (k : ℕ) × (runs : List ListedRun) × (h.listing k ≡ some runs)
    × (l.watched ≡ database_ids (select_runs runs sha))
    × (0 < length l.watched)
    × (l.discovery_closed ≡ false)

-- What a watch starts with.
pub record IsStarted (q : WatchRequest) (h : WatchHost) (c : Settings) (l : Loop) : Type 0 where
  pub valid : is_valid_request q ≡ true
  pub settings : c ≡ settings_of q h.start_ms c.head
  pub begins : IsPinned q c l ⊎ IsRegistered q h c l

ids_lem :
    (c c' : Settings) (l : Loop) (ids : List ℕ)
    → start_on_ids c ids ≡ started c' l
    → (c ≡ c') × (l.watched ≡ ids) × (0 < length l.watched) × (l.discovery_closed ≡ false)
unfolding start_on_ids first_loop
ids_lem c c' l [] h = cc
ids_lem c c' l (id ∷ ids) h = ground arith

-- What the wait ends with, where it ends with a run: the selection from a listing.
register_lem :
    (fuel : ℕ) (h : WatchHost) (sha : Text) (deadline k : ℕ) (r : ListedRun) (rs : List ListedRun)
    → register fuel h sha deadline k ≡ some (listed_runs (r ∷ rs))
    → (m : ℕ) × (runs : List ListedRun) × (h.listing m ≡ some runs)
      × (select_runs runs sha ≡ r ∷ rs)
unfolding register
register_lem zero h sha deadline k r rs e = cc
register_lem (suc fuel) h sha deadline k r rs e = elim (Option-cases (h.listing k)) [
  | inl fails ↦ ground (arith, fails, e)
  | inr (runs, found) ↦ elim (Bool-cases (ltb 0 (length (select_runs runs sha)))) [
    | inl listed ↦ (k, runs, found, ground (arith, found, listed, e))
    | inr empty ↦ elim (Bool-cases (leb deadline (h.clock k))) [
      | inl over ↦ ground (arith, found, empty, over, e)
      | inr early ↦
          register_lem fuel h sha deadline (suc k) r rs (ground (arith, found, empty, early, e))
    ]
  ]
]

started_inj : (a b : StartResult) → Option.some a ≡ some b → a ≡ b
started_inj a b h = cc

abbrev IsOpen : WatchHost → Text → Settings → Settings → Loop → Type 0
IsOpen h sha c c' l =
    (c ≡ c')
    × (k : ℕ) × (runs : List ListedRun) × (h.listing k ≡ some runs)
    × (l.watched ≡ database_ids (select_runs runs sha))
    × (0 < length l.watched)
    × (l.discovery_closed ≡ false)

runs-IsOpen :
    (fuel : ℕ) (h : WatchHost) (sha : Text) (deadline : ℕ) (c c' : Settings) (l : Loop)
    (r : Registered)
    → register fuel h sha deadline 0 ≡ some r
    → start_on_runs c r ≡ started c' l
    → IsOpen h sha c c' l
unfolding start_on_runs
runs-IsOpen fuel h sha deadline c c' l lookup_fails e e' = cc
runs-IsOpen fuel h sha deadline c c' l (listed_runs []) e e' = cc
runs-IsOpen fuel h sha deadline c c' l (listed_runs (r ∷ rs)) e e' =
    let (k, runs, found, selected) = register_lem fuel h sha deadline 0 r rs e in
    let (same, watched, some_run, opened) = ids_lem c c' l (database_ids (r ∷ rs)) e' in
    (same, k, runs, found, watched ∙ ap database_ids (sym selected), some_run, opened)

head-IsOpen :
    (fuel : ℕ) (q : WatchRequest) (h : WatchHost) (sha : Text) (c : Settings) (l : Loop)
    → start_on_head fuel q h sha ≡ some (started c l)
    → IsOpen h sha (settings_of q h.start_ms (some sha)) c l × (is_head_sha sha ≡ true)
unfolding start_on_head
head-IsOpen fuel q h sha c l e = elim (Bool-cases (is_head_sha sha)) [
  | inr bad ↦ absurd (ground (arith, bad, e))
  | inl good ↦ elim (Option-cases (register fuel h sha (deadline_of q h.start_ms) 0)) [
    | inl out ↦ absurd (ground (arith, good, out, e))
    | inr (r, found) ↦ (
      runs-IsOpen fuel h sha (deadline_of q h.start_ms) (settings_of q h.start_ms (some sha)) c l r
          found (ground (arith, good, found, e)),
      good,
    )
  ]
]

valid_run_id :
    (q : WatchRequest) (id : Option ℕ)
    → is_valid_request q ≡ true
    → q.run_id ≡ some id
    → (n : ℕ) × (id ≡ some n) × (0 < n)
unfolding is_valid_request is_valid_run_id is_positive_number
valid_run_id q none valid same = absurd (ground (arith, same))
valid_run_id q (some n) valid same = (n, refl, ground (arith, same))

pinned-IsStarted :
    (q : WatchRequest) (h : WatchHost) (id : Option ℕ)
    → is_valid_request q ≡ true
    → q.run_id ≡ some id
    → IsStarted q h
        (settings_of q h.start_ms (expected_head q.expected_head_sha))
        (first_loop (seconds_of id ∷ []) true)
unfolding settings_of first_loop seconds_of
pinned-IsStarted q h id valid same =
    let (n, number, more) = valid_run_id q id valid same in
    record {
      valid = valid;
      settings = refl;
      begins = inl (n, same ∙ ap some number, more, ap (λ x. seconds_of x ∷ []) number, refl, refl);
    }

started_of : (c c' : Settings) (l l' : Loop) → started c l ≡ started c' l' → (c ≡ c') × (l ≡ l')
started_of c c' l l' e = (cc, cc)

-- What the bound watch starts with, on a valid request.
bound-IsStarted :
    (fuel : ℕ) (q : WatchRequest) (h : WatchHost) (id : Option (Option ℕ)) (c : Settings) (l : Loop)
    → is_valid_request q ≡ true
    → q.run_id ≡ id
    → start_bound fuel q h (expected_head q.expected_head_sha) id ≡ some (started c l)
    → IsStarted q h c l
unfolding start_bound settings_of
bound-IsStarted fuel q h (some id) c l valid same e =
    let (cs, ls) = started_of _ c _ l (started_inj _ _ e) in
    subst (λ x. IsStarted q h x l) cs
      (subst (λ x. IsStarted q h (settings_of q h.start_ms (expected_head q.expected_head_sha)) x)
        ls (pinned-IsStarted q h id valid same))
bound-IsStarted fuel q h none c l valid same e =
    elim (Option-cases (or_head (expected_head q.expected_head_sha) h.branch_head)) [
      | inl lost ↦ absurd (ground (arith, lost, e))
      | inr (sha, found) ↦
          let ((cs, k, runs, listed, watched, some_run, opened), good) =
            head-IsOpen fuel q h sha c l (ground (arith, found, e)) in
          record {
            valid = valid;
            settings = subst (λ x. x ≡ settings_of q h.start_ms x.head) cs refl;
            begins = inr (
              sha,
              found,
              good,
              ap (λ x. x.head) (sym cs),
              same,
              k,
              runs,
              listed,
              watched,
              some_run,
              opened,
            );
          }
    ]

-- A watch starts only on a valid request, with the limits of the request and the clock of the start.
-- Where the request names a run, it watches that run alone, with the discovery closed. Where it
-- names none, it watches the runs that a listing of the host has for the head, at least one, with
-- the discovery open; the head is then a full commit name, the expected one or else that of the
-- branch.
pub start_watch-IsStarted :
    (fuel : ℕ) (q : WatchRequest) (h : WatchHost) (c : Settings) (l : Loop)
    → start_watch fuel q h ≡ some (started c l)
    → IsStarted q h c l
unfolding start_watch
start_watch-IsStarted fuel q h c l e =
    bound-IsStarted fuel q h q.run_id c l (ground (arith, e)) refl (ground (arith, e))
