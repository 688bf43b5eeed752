-- ===== src/Ledger/Replies.antt =====
-- What the replies of mcp/ground-control/lib/release-identity.js say of the log.
use ground_control.Ledger.Calls.{
  ◌>>=◌, done, Api, Run, call, records_failed, Created, undecided, created, taken,
}
use ground_control.Prelude.{
  refl, ◌≡◌, List, ap, Bool, some, sym, Option, ℕ, not, true, none, suc, zero, false, ◌∙◌, subst,
  ◌⊎◌, inr, inl,
}
use ground_control.Ledger.Fold.{Reservation}
use ground_control.Ledger.Operation.{
  of_read, Context, fold_log, Reply, respond, fold_refs, require, check_issue, require_run_branch,
  read_base_family,
}
use ground_control.Ledger.Log.{IsLog}
use ground_control.Ledger.Claim.{owned_by, Base}
use ground_control.Ledger.View.{to_view}
use ground_control.Ledger.Validity.{fold_release_ledger-IsLog}
use ground_control.Ledger.Reserve.{
  settle_claim, after_claim, claim_available, reserve_new, reserve_from, reserve, is_created,
  local_family, claim_next, claim_attempts_max,
}
use ground_control.Prelude.Text.{Text}
use ground_control.Ledger.Family.{Family}
use ground_control.Ledger.Runs.{
  bind-done, not_done, of_read-done, require-done, done_inj, call-done,
}

-- How a creation that this run decided tells whether the answer is reused.
abbrev pub IsTold : Created → Bool → Type 0
IsTold c reused = ((c ≡ created) × (reused ≡ false)) ⊎ ((c ≡ taken) × (reused ≡ true))

module _ {W : Type 0} (api : Api W) (ctx : Context) where
  pub fold_log-IsLog :
      (w w' : W) (rs : List Reservation) → fold_log api ctx w ≡ (w', done rs) → IsLog rs
  unfolding fold_log fold_refs of_read
  fold_log-IsLog w w' rs h =
      let (v, refs, _, h') = bind-done (call api.list_refs) (fold_refs api ctx) w w' h in
      let read = of_read-done _ rs (ap (λ x. x.1) h') in
      (fold_release_ledger-IsLog ctx.codec ctx.caller.repository ctx.caller.family
        (api.read_commit v) refs rs read).0

  -- The reply shows the reservation that the caller owns in a valid log, which the run has read in a
  -- world that `Origin` admits for what the reply says of reuse; the reservation's records were then
  -- ensured, last of all.
  pub record IsOwn (Origin : W → Bool → Type 0) (w' : W) (reply : Reply) : Type 0 where
    pub before : W
    pub after : W
    pub reservations : List Reservation
    pub read : fold_log api ctx before ≡ (after, done reservations)
    pub origin : Origin before reply.reused
    pub is_log : IsLog reservations
    pub mine : Reservation
    pub owns : owned_by ctx.caller reservations ≡ some mine
    pub shows : reply.view ≡ to_view ctx.caller.repository ctx.caller.family mine
    pub recorded : api.ensure_records reply.view after ≡ (w', some true)

  respond_lem :
      (r : Reservation) (reused : Bool) (w w' : W) (reply : Reply)
      → respond api ctx r reused w ≡ (w', done reply)
      → (reply
          ≡ record { view = to_view ctx.caller.repository ctx.caller.family r; reused = reused })
        × (api.ensure_records (to_view ctx.caller.repository ctx.caller.family r) w
            ≡ (w', some true))
  unfolding respond
  respond_lem r reused w w' reply h =
      let view = to_view ctx.caller.repository ctx.caller.family r in
      let (v, posted, e, h₁) = bind-done (call (api.ensure_records view)) _ w w' h in
      let (v', u, e₁, h₂) = bind-done (require posted (records_failed view)) _ v w' h₁ in
      let (yes_posted, same) = require-done posted (records_failed view) v v' u e₁ in
      (
        sym (done_inj _ _ (ap (λ x. x.1) h₂)),
        call-done (api.ensure_records view) w v posted e
            ∙ ap (λ b. (v, some b)) yes_posted
            ∙ ap (λ x. (x, some true)) (same ∙ ap (λ x. x.0) h₂),
      )

  pub answers-IsOwn :
      (O : W → Bool → Type 0) (rs : List Reservation) (r : Reservation) (reused : Bool)
      (before after w' : W) (reply : Reply)
      → O before reused
      → fold_log api ctx before ≡ (after, done rs)
      → owned_by ctx.caller rs ≡ some r
      → respond api ctx r reused after ≡ (w', done reply)
      → (own : IsOwn O w' reply) × (own.mine ≡ r)
  answers-IsOwn O rs r reused before after w' reply origin read owns h =
      let (same, posted) = respond_lem r reused after w' reply h in
      let own : IsOwn O w' reply = record {
        before = before;
        after = after;
        reservations = rs;
        read = read;
        origin = subst (λ (x : Reply). O before x.reused) (sym same) origin;
        is_log = fold_log-IsLog before after rs read;
        mine = r;
        owns = owns;
        shows = ap (λ x. x.view) same;
        recorded =
            subst (λ (x : Reply). api.ensure_records x.view after ≡ (w', some true)) (sym same)
              posted;
      } in
      (own, refl)

  respond-IsOwn :
      (O : W → Bool → Type 0) (rs : List Reservation) (r : Reservation) (reused : Bool)
      (before after w' : W) (reply : Reply)
      → O before reused
      → fold_log api ctx before ≡ (after, done rs)
      → owned_by ctx.caller rs ≡ some r
      → respond api ctx r reused after ≡ (w', done reply)
      → IsOwn O w' reply
  respond-IsOwn O rs r reused before after w' reply origin read owns h =
      (answers-IsOwn O rs r reused before after w' reply origin read owns h).0

  -- The claims that a run from the world `start` makes, each with the world in which it ends and how
  -- it is decided: every one on a log that the run has just read and in which the caller owns
  -- nothing, the first after the checks of the run.
  pub data Attempts (start : W) : Base → Text → W → Created → Type 0 where
    first :
        {seen : List Reservation} {w₁ w₂ w₃ w₄ w₅ at : W} {u : Unit {0}} {local : Family}
        {branch : Text} {base : Base} {c : Created}
        → fold_log api ctx start ≡ (w₁, done seen)
        → owned_by ctx.caller seen ≡ none
        → check_issue api ctx true w₁ ≡ (w₂, done u)
        → local_family api ctx ctx.local_families w₂ ≡ (w₃, done local)
        → require_run_branch api ctx none w₃ ≡ (w₄, done branch)
        → read_base_family api ctx local.base_branch w₄ ≡ (w₅, done base)
        → claim_next api ctx base seen branch w₅ ≡ (at, done c)
        → Attempts start base branch at c
    another :
        {seen : List Reservation} {v w at : W} {base : Base} {branch : Text} {b c : Created}
        → Attempts start base branch v b
        → fold_log api ctx v ≡ (w, done seen)
        → owned_by ctx.caller seen ≡ none
        → claim_next api ctx base seen branch w ≡ (at, done c)
        → Attempts start base branch at c

  -- The read that `reserve` answers by: its first, of a reservation that is there and so is reused,
  -- or the one that starts where its last claim ended.
  abbrev pub IsReserveRead : W → W → Bool → Type 0
  IsReserveRead w at reused =
      ((at ≡ w) × (reused ≡ true))
      ⊎ ((base : Base) × (branch : Text) × (c : Created) × Attempts w base branch at c
          × IsTold c reused)

  settle_claim-IsOwn :
      (O : W → Bool → Type 0) (again : Run W Reply) (c : Created) (rs : List Reservation)
      (o : Option Reservation) (before after w' : W) (reply : Reply)
      → (owned_by ctx.caller rs ≡ none → again after ≡ (w', done reply) → IsOwn O w' reply)
      → O before (not (is_created c))
      → fold_log api ctx before ≡ (after, done rs)
      → owned_by ctx.caller rs ≡ o
      → settle_claim api ctx again c o after ≡ (w', done reply)
      → IsOwn O w' reply
  unfolding settle_claim
  settle_claim-IsOwn O again c rs none before after w' reply ih origin read owns h = ih owns h
  settle_claim-IsOwn O again c rs (some r) before after w' reply ih origin read owns h =
      respond-IsOwn O rs r (not (is_created c)) before after w' reply origin read owns h

  converge_claim :
      (O : W → Bool → Type 0) (again : List Reservation → Run W Reply) (c : Created) (w w' : W)
      (reply : Reply)
      → ((rs : List Reservation) (v : W)
          → fold_log api ctx w ≡ (v, done rs)
          → owned_by ctx.caller rs ≡ none
          → again rs v ≡ (w', done reply)
          → IsOwn O w' reply)
      → O w (not (is_created c))
      → (fold_log api ctx >>= λ rs. settle_claim api ctx (again rs) c (owned_by ctx.caller rs)) w
        ≡ (w', done reply)
      → IsOwn O w' reply
  converge_claim O again c w w' reply ih origin h =
      let (v, rs, e, h') = bind-done (fold_log api ctx) _ w w' h in
      settle_claim-IsOwn O (again rs) c rs _ w v w' reply (ih rs v e) origin e refl h'

  after_claim-IsOwn :
      (O : W → Bool → Type 0) (again : List Reservation → Run W Reply) (c : Created) (w w' : W)
      (reply : Reply)
      → ((rs : List Reservation) (v : W)
          → fold_log api ctx w ≡ (v, done rs)
          → owned_by ctx.caller rs ≡ none
          → again rs v ≡ (w', done reply)
          → IsOwn O w' reply)
      → ((reused : Bool) → IsTold c reused → O w reused)
      → after_claim api ctx again c w ≡ (w', done reply)
      → IsOwn O w' reply
  unfolding after_claim is_created
  after_claim-IsOwn O again undecided w w' reply ih origin h =
      absurd (not_done reply (ap (λ x. x.1) h))
  after_claim-IsOwn O again created w w' reply ih origin h =
      converge_claim O again created w w' reply ih (origin false (inl (refl, refl))) h
  after_claim-IsOwn O again taken w w' reply ih origin h =
      converge_claim O again taken w w' reply ih (origin true (inr (refl, refl))) h

  claim_available-IsOwn :
      (start : W) (n : ℕ) (base : Base) (rs : List Reservation) (branch : Text) (w w' : W)
      (reply : Reply)
      → ((at : W) (c : Created)
          → claim_next api ctx base rs branch w ≡ (at, done c)
          → Attempts start base branch at c)
      → claim_available api ctx n base rs branch w ≡ (w', done reply)
      → IsOwn (IsReserveRead start) w' reply
  unfolding claim_available
  claim_available-IsOwn start zero base rs branch w w' reply attempt h =
      absurd (not_done reply (ap (λ x. x.1) h))
  claim_available-IsOwn start (suc n) base rs branch w w' reply attempt h =
      let (v, c, claims, h') = bind-done (claim_next api ctx base rs branch) _ w w' h in
      let made = attempt v c claims in
      after_claim-IsOwn (IsReserveRead start) (λ now. claim_available api ctx n base now branch) c v
        w' reply
        (λ now u read free h₂.
          claim_available-IsOwn start n base now branch u w' reply
            (λ at c' claims'. Attempts.another made read free claims') h₂)
        (λ reused told. inr (base, branch, c, made, told)) h'

  reserve_new-IsOwn :
      (start : W) (rs : List Reservation) (w w' : W) (reply : Reply)
      → fold_log api ctx start ≡ (w, done rs)
      → owned_by ctx.caller rs ≡ none
      → reserve_new api ctx rs w ≡ (w', done reply)
      → IsOwn (IsReserveRead start) w' reply
  unfolding reserve_new
  reserve_new-IsOwn start rs w w' reply read free h =
      let (v₁, _, e₁, h₁) = bind-done (check_issue api ctx true) _ w w' h in
      let (v₂, local, e₂, h₂) = bind-done (local_family api ctx ctx.local_families) _ v₁ w' h₁ in
      let (v₃, branch, e₃, h₃) = bind-done (require_run_branch api ctx none) _ v₂ w' h₂ in
      let (v₄, base, e₄, h₄) = bind-done (read_base_family api ctx local.base_branch) _ v₃ w' h₃ in
      claim_available-IsOwn start claim_attempts_max base rs branch v₄ w' reply
        (λ at c claims. Attempts.first read free e₁ e₂ e₃ e₄ claims) h₄

  reserve_from-IsOwn :
      (start : W) (rs : List Reservation) (o : Option Reservation) (w w' : W) (reply : Reply)
      → fold_log api ctx start ≡ (w, done rs)
      → owned_by ctx.caller rs ≡ o
      → reserve_from api ctx rs o w ≡ (w', done reply)
      → IsOwn (IsReserveRead start) w' reply
  unfolding reserve_from
  reserve_from-IsOwn start rs none w w' reply read owns h =
      reserve_new-IsOwn start rs w w' reply read owns h
  reserve_from-IsOwn start rs (some r) w w' reply read owns h =
      respond-IsOwn (IsReserveRead start) rs r true start w w' reply (inl (refl, refl)) read owns h

  -- Where `reserve` answers with a reservation, it is the one that the caller owns in a valid log that
  -- the run has read, and the run ended by ensuring its records. Either this was the first read of
  -- the run, and the answer is reused; or the read began in the world in which a claim of the run
  -- ended, made, after the checks, on the log as the run had just read it, in which the caller owned
  -- nothing: then the answer is new if that claim was created, and reused if another run took its
  -- slot.
  pub reserve-IsOwn :
      (w w' : W) (reply : Reply)
      → reserve api ctx w ≡ (w', done reply)
      → IsOwn (IsReserveRead w) w' reply
  unfolding reserve
  reserve-IsOwn w w' reply h =
      let (v, rs, e, h') = bind-done (fold_log api ctx) _ w w' h in
      reserve_from-IsOwn w rs _ v w' reply e refl h'
