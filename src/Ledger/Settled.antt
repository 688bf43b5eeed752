-- ===== src/Ledger/Settled.antt =====
-- What `publish` and `abandon` of mcp/ground-control/lib/release-identity.js answer.
use ground_control.Ledger.Calls.{
  ◌>>=◌, Api, Refusal, done, reservation_not_found, write_undecided, Created, undecided, created,
  refuse, taken,
}
use ground_control.Prelude.{
  refl, List, ◌≡◌, Bool, true, some, ap, Option, sym, false, ◌∙◌, none, Bool-cases, inl, inr, ◌⊎◌,
  arith,
}
use ground_control.Ledger.Fold.{Reservation, EventCommit}
use ground_control.Ledger.Transition.{
  decide, Action, converge_on, transition, is_identical, winner_of, after_outcome, settle_on,
  settle_new, is_taken_by_other, append_outcome, terminal_refusal, with_outcome, reason_eq,
  abandon_it, publish_it,
}
use ground_control.Ledger.Operation.{Context, Reply, fold_log, from_option, check_issue, respond}
use ground_control.Ledger.Event.{Body, Sha, published, Reason, abandoned, reserved}
use ground_control.Ledger.Claim.{owned_by}
use ground_control.Ledger.Race.Slots.{none≢some}
use ground_control.Ledger.Race.Outcomes.{if_true, if_false}
use ground_control.Ledger.Validity.{some_inj}
use ground_control.Ledger.Runs.{not_done, bind-done, done_inj}
use ground_control.Ledger.Replies.{IsTold, IsOwn, answers-IsOwn}
use ground_control.Prelude.Text.{Text}

with_outcome_lem :
    (q : Reservation) (o : Option EventCommit) (r : Reservation) (e : EventCommit)
    → with_outcome q o ≡ some (r, e)
    → (q ≡ r) × (o ≡ some e)
unfolding with_outcome
with_outcome_lem q none r e h = absurd (none≢some (r, e) h)
with_outcome_lem q (some o) r e h =
    let same = some_inj (q, o) (r, e) h in (ap (λ x. x.0) same, ap (λ x. some x.1) same)

winner_lem :
    (o : Option Reservation) (r : Reservation) (e : EventCommit)
    → winner_of o ≡ some (r, e)
    → (o ≡ some r) × (r.outcome ≡ some e)
unfolding winner_of
winner_lem none r e h = absurd (none≢some (r, e) h)
winner_lem (some q) r e h =
    let (same, has) = with_outcome_lem q q.outcome r e h in
    (ap some same, ap (λ x. x.outcome) (sym same) ∙ has)

-- The outcome that an action asks for: any publication, or the abandonment with its reason.
abbrev pub IsAskedFor : Action → Body → Type 0
IsAskedFor publish_it body =
    (revision : Sha) × (artifacts : List (Text × Sha)) × (body ≡ published revision artifacts)
IsAskedFor (abandon_it reason) body = body ≡ abandoned reason

reason_lem : (r q : Reason) → reason_eq r q ≡ true → r ≡ q
unfolding reason_eq
reason_lem r q h = ground (arith, h)

is_identical-IsAskedFor :
    (action : Action) (body : Body) → is_identical action body ≡ true → IsAskedFor action body
unfolding is_identical
is_identical-IsAskedFor publish_it (published r a) h = (r, a, refl)
is_identical-IsAskedFor publish_it (abandoned r) h = absurd (ground (arith, h))
is_identical-IsAskedFor publish_it (reserved c) h = absurd (ground (arith, h))
is_identical-IsAskedFor (abandon_it q) (published r a) h = absurd (ground (arith, h))
is_identical-IsAskedFor (abandon_it q) (abandoned r) h = ap abandoned (reason_lem r q h)
is_identical-IsAskedFor (abandon_it q) (reserved c) h = absurd (ground (arith, h))

module _ {W : Type 0} (api : Api W) (ctx : Context) where
  from_option_lem :
      {A : Type 0} (e : Refusal) (o : Option A) (w w' : W) (a : A)
      → from_option e o w ≡ (w', done a)
      → (o ≡ some a) × (w ≡ w')
  from_option_lem e none w w' a h = absurd (not_done a (ap (λ x. x.1) h))
  from_option_lem e (some b) w w' a h = (ap some (done_inj b a (ap (λ x. x.1) h)), ap (λ x. x.0) h)

  -- The outcome that a run from the world `w` appended, and how that ended in the world `at`: the run
  -- read the caller's reservation without an outcome, decided one and wrote it. An answer is reused if
  -- another run took the slot of the outcome.
  pub record IsAppended (action : Action) (w at : W) (reused : Bool) : Type 0 where
    pub seen : List Reservation
    pub seen_to : W
    pub read : fold_log api ctx w ≡ (seen_to, done seen)
    pub target : Reservation
    pub owns : owned_by ctx.caller seen ≡ some target
    pub no_outcome : target.outcome ≡ none
    pub checked : W
    pub checks : check_issue api ctx false seen_to ≡ (checked, done tt)
    pub body : Body
    pub decided_to : W
    pub decides : decide api ctx action target checked ≡ (decided_to, done body)
    pub decided : Created
    pub appends : append_outcome api ctx target body decided_to ≡ (at, done decided)
    pub told : IsTold decided reused

  -- The read that `publish` and `abandon` answer by: the first, of a reservation that has an outcome,
  -- or the one that starts where the run's own write ended.
  abbrev pub IsOutcomeRead : Action → W → W → Bool → Type 0
  IsOutcomeRead action w at reused = ((at ≡ w) × (reused ≡ true)) ⊎ IsAppended action w at reused

  -- The reply shows the reservation that the caller owns in the log that was read, and the log has the
  -- outcome asked for.
  pub record IsSettledAs (action : Action) (w w' : W) (reply : Reply) : Type 0 where
    pub own : IsOwn api ctx (IsOutcomeRead action w) w' reply
    pub outcome : EventCommit
    pub has_outcome : own.mine.outcome ≡ some outcome
    pub asked : IsAskedFor action outcome.event.body

  converge-IsSettledAs :
      (action : Action) (reused : Bool) (rs : List Reservation) (r : Reservation) (o : EventCommit)
      (start before after w' : W) (reply : Reply)
      → IsOutcomeRead action start before reused
      → fold_log api ctx before ≡ (after, done rs)
      → owned_by ctx.caller rs ≡ some r
      → r.outcome ≡ some o
      → converge_on api ctx action reused r o after ≡ (w', done reply)
      → IsSettledAs action start w' reply
  unfolding converge_on
  converge-IsSettledAs action reused rs r o start before after w' reply origin read owns has h =
      elim (Bool-cases (is_identical action o.event.body)) [
        | inl same ↦
            let answered : respond api ctx r reused after ≡ (w', done reply) =
              sym (
                ap (λ m. m after)
                  (if_true (is_identical action o.event.body) (respond api ctx r reused)
                    (refuse (terminal_refusal api ctx r)) same))
              ∙ h in
            let (own, its) =
              answers-IsOwn api ctx (IsOutcomeRead action start) rs r reused before after w' reply
                origin read owns answered in
            record {
              own = own;
              outcome = o;
              has_outcome = ap (λ (x : Reservation). x.outcome) its ∙ has;
              asked = is_identical-IsAskedFor action o.event.body same;
            }
        | inr other ↦ absurd (
            not_done reply (
              ap (λ x. x.1)
                (sym (
                    ap (λ m. m after)
                      (if_false (is_identical action o.event.body) (respond api ctx r reused)
                        (refuse (terminal_refusal api ctx r)) other))
                  ∙ h)))
      ]

  after_fold :
      (action : Action) (reused : Bool) (start w w' : W) (reply : Reply)
      → IsOutcomeRead action start w reused
      → (fold_log api ctx >>= λ settled.
            from_option write_undecided (winner_of (owned_by ctx.caller settled)) >>= λ won.
            converge_on api ctx action reused won.0 won.1)
          w
        ≡ (w', done reply)
      → IsSettledAs action start w' reply
  after_fold action reused start w w' reply origin h =
      let (v, rs, e, h₁) = bind-done (fold_log api ctx) _ w w' h in
      let (v₁, won, e₁, h₂) =
        bind-done (from_option write_undecided (winner_of (owned_by ctx.caller rs))) _ v w' h₁ in
      let (found, same) = from_option_lem _ _ v v₁ won e₁ in
      let (owns, has) = winner_lem _ won.0 won.1 found in
      converge-IsSettledAs action reused rs won.0 won.1 start w v₁ w' reply origin
        (e ∙ ap (λ x. (x, done rs)) same) owns has h₂

  after_outcome-IsSettledAs :
      (action : Action) (c : Created) (start w w' : W) (reply : Reply)
      → ((reused : Bool) → IsTold c reused → IsOutcomeRead action start w reused)
      → after_outcome api ctx action c w ≡ (w', done reply)
      → IsSettledAs action start w' reply
  unfolding after_outcome is_taken_by_other
  after_outcome-IsSettledAs action undecided start w w' reply origin h =
      absurd (not_done reply (ap (λ x. x.1) h))
  after_outcome-IsSettledAs action created start w w' reply origin h =
      after_fold action false start w w' reply (origin false (inl (refl, refl))) h
  after_outcome-IsSettledAs action taken start w w' reply origin h =
      after_fold action true start w w' reply (origin true (inr (refl, refl))) h

  settle_on-IsSettledAs :
      (action : Action) (rs : List Reservation) (r : Reservation) (o : Option EventCommit)
      (start w w' : W) (reply : Reply)
      → fold_log api ctx start ≡ (w, done rs)
      → owned_by ctx.caller rs ≡ some r
      → r.outcome ≡ o
      → settle_on api ctx action r o w ≡ (w', done reply)
      → IsSettledAs action start w' reply
  unfolding settle_on settle_new
  settle_on-IsSettledAs action rs r none start w w' reply read owns has h =
      let (v, u, e₁, h₁) = bind-done (check_issue api ctx false) _ w w' h in
      let (v₁, body, e₂, h₂) = bind-done (decide api ctx action r) _ v w' h₁ in
      let (v₂, c, e₃, h₃) = bind-done (append_outcome api ctx r body) _ v₁ w' h₂ in
      after_outcome-IsSettledAs action c start v₂ w' reply
        (λ reused told. inr (record {
          seen = rs;
          seen_to = w;
          read = read;
          target = r;
          owns = owns;
          no_outcome = has;
          checked = v;
          checks = e₁;
          body = body;
          decided_to = v₁;
          decides = e₂;
          decided = c;
          appends = e₃;
          told = told;
        }))
        h₃
  settle_on-IsSettledAs action rs r (some o) start w w' reply read owns has h =
      converge-IsSettledAs action true rs r o start start w w' reply (inl (refl, refl)) read owns
        has h

  -- Where `publish` or `abandon` answers with a reservation, it is the one that the caller owns in a
  -- valid log that the run has read, the log has the outcome asked for, and the run ended by ensuring
  -- the records. Either this was the first read of the run, and the answer is reused; or the run had
  -- found the reservation without an outcome, decided one and written it, and the read began in the
  -- world in which the write ended: then the answer is new if the write was created, and reused if
  -- another run took the slot, with an outcome of the same kind and, of an abandonment, the same
  -- reason.
  pub transition-IsSettledAs :
      (action : Action) (w w' : W) (reply : Reply)
      → transition api ctx action w ≡ (w', done reply)
      → IsSettledAs action w w' reply
  unfolding transition
  transition-IsSettledAs action w w' reply h =
      let (v, rs, e, h₁) = bind-done (fold_log api ctx) _ w w' h in
      let (v₁, r, e₁, h₂) =
        bind-done (from_option reservation_not_found (owned_by ctx.caller rs)) _ v w' h₁ in
      let (owns, same) = from_option_lem _ _ v v₁ r e₁ in
      settle_on-IsSettledAs action rs r r.outcome w v₁ w' reply (e ∙ ap (λ x. (x, done rs)) same)
        owns refl h₂
