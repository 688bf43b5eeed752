-- ===== src/Ledger/Log.antt =====
-- What the fold of mcp/ground-control/lib/release-identity-ledger.js accepts.
use ground_control.Prelude.{
  List, Bool, Option, ◌≡◌, [], suc, ◌∷◌, true, length, arith, ℕ, false, All, refl, ◌<◌, some, any,
  subst, not, ap, sym, ◌∙◌, zero,
}
use ground_control.Ledger.Fold.{
  Read, sha_eq, terms_of, Reservation, ◌>>=◌, guard, read_ok, read_terms, Commit, read_slot,
  malformed, read_event, read_commit, unavailable, last_claim, is_linked, same_identity,
  read_outcome, EventCommit, is_outcome, outcome_follows_claim, first_parent, fold_slots,
}
use ground_control.Ledger.Event.{Codec, Body, Sha, Claim, reserved, published, abandoned}
use ground_control.Prelude.Text.{Text}

-- `r` may come after the reservations `before`, the newest of which is the first.
pub record Follows (before : List Reservation) (r : Reservation) : Type 0 where
  pub next_slot : r.slot ≡ suc (length before)
  pub above : All (λ q. q.sequence < r.sequence) before
  pub names_last : r.terms.previous_claim ≡ last_claim before
  pub is_single : any (same_identity r) before ≡ false
  pub is_claim : r.claim.event.body ≡ reserved r.terms
  pub claims_slot : r.claim.event.slot ≡ r.slot
  pub roots_in_base : first_parent r.claim.commit.parents ≡ some r.terms.base_revision
  pub is_sequence : r.claim.event.sequence ≡ r.sequence
  pub settled :
      (o : EventCommit)
      → r.outcome ≡ some o
      → (is_outcome o.event.body ≡ true) × (outcome_follows_claim o r.claim r.terms ≡ true)

-- The logs: each reservation may come after those before it.
pub data IsLog : List Reservation → Type 0 where
  no_claim : IsLog []
  next_claim : {rs : List Reservation} {r : Reservation} → IsLog rs → Follows rs r → IsLog (r ∷ rs)

pub bind-read_ok :
    {A B : Type 0} (m : Read A) (f : A → Read B) {b : B}
    → (m >>= f) ≡ read_ok b
    → (a : A) × (m ≡ read_ok a) × (f a ≡ read_ok b)
bind-read_ok (read_ok a) f h = (a, refl, h)
bind-read_ok malformed f h = cc
bind-read_ok unavailable f h = cc

pub guard-read_ok : (b : Bool) {u : Unit {0}} → guard b ≡ read_ok u → b ≡ true
guard-read_ok true h = refl
guard-read_ok false h = cc

pub read_inj : {A : Type 0} (a b : A) → read_ok a ≡ read_ok b → a ≡ b
read_inj a b h = cc

pub sha_eq→eq : (a b : Option Sha) → sha_eq a b ≡ true → a ≡ b
unfolding sha_eq
sha_eq→eq a b h = ground arith

pub not-true : (b : Bool) → not b ≡ true → b ≡ false
not-true b h = ground arith

pub bind_at : {A B : Type 0} {m : Read A} (f : A → Read B) (a : A) → m ≡ read_ok a → (m >>= f) ≡ f a
bind_at f a e = ap (λ x. x >>= f) e

same_Reservation :
    (r : Reservation) (slot sequence : ℕ)
    → r.slot ≡ slot
    → r.sequence ≡ sequence
    → record {
      slot = slot;
      sequence = sequence;
      claim = r.claim;
      terms = r.terms;
      outcome = r.outcome;
    }
      ≡ r
same_Reservation r slot sequence e₁ e₂ i = record {
  slot = sym e₁ i;
  sequence = sym e₂ i;
  claim = r.claim;
  terms = r.terms;
  outcome = r.outcome;
}

terms_lem : (b : Body) (c : Claim) → read_terms (terms_of b) ≡ read_ok c → b ≡ reserved c
unfolding terms_of read_terms
terms_lem (reserved d) c h = cc
terms_lem (published r a) c h = cc
terms_lem (abandoned r) c h = cc

module _ (codec : Codec) (repository family : Text) (commits : Sha → Option Commit) where
  -- A reservation is read at a slot, after the reservations before it.
  pub record IsSlot (slot : ℕ) (claim_sha outcome_sha : Option Sha) (before : List Reservation)
      (r : Reservation) : Type 0 where
    pub at_slot : r.slot ≡ slot
    pub same_sequence : r.sequence ≡ r.claim.event.sequence
    pub is_read : read_event codec repository family commits slot claim_sha ≡ read_ok r.claim
    pub reserves : r.claim.event.body ≡ reserved r.terms
    pub base : Commit
    pub base_read :
        read_commit codec repository family commits (some r.terms.base_revision) ≡ read_ok base
    pub linked : is_linked r.claim r.terms base before ≡ true
    pub outcome_read :
        read_outcome codec repository family commits slot r.claim r.terms outcome_sha
        ≡ read_ok r.outcome

  pub read_slot-IsSlot :
      (slot : ℕ) (claim_sha outcome_sha : Option Sha) (before : List Reservation) (r : Reservation)
      → read_slot codec repository family commits slot claim_sha outcome_sha before ≡ read_ok r
      → IsSlot slot claim_sha outcome_sha before r
  unfolding read_slot
  read_slot-IsSlot slot claim_sha outcome_sha before r h =
      let (claim, e₁, h₁) =
        bind-read_ok (read_event codec repository family commits slot claim_sha) _ h in
      let (terms, e₂, h₂) = bind-read_ok (read_terms (terms_of claim.event.body)) _ h₁ in
      let (base, e₃, h₃) =
        bind-read_ok (read_commit codec repository family commits (some terms.base_revision)) _
          h₂ in
      let (u, e₄, h₄) = bind-read_ok (guard (is_linked claim terms base before)) _ h₃ in
      let (outcome, e₅, h₅) =
        bind-read_ok (read_outcome codec repository family commits slot claim terms outcome_sha) _
          h₄ in
      subst (IsSlot slot claim_sha outcome_sha before) (read_inj _ _ h₅) (record {
        at_slot = refl;
        same_sequence = refl;
        is_read = e₁;
        reserves = terms_lem claim.event.body terms e₂;
        base = base;
        base_read = e₃;
        linked = guard-read_ok _ e₄;
        outcome_read = e₅;
      })

  pub IsSlot-read_slot :
      (slot : ℕ) (claim_sha outcome_sha : Option Sha) (before : List Reservation) (r : Reservation)
      → IsSlot slot claim_sha outcome_sha before r
      → read_slot codec repository family commits slot claim_sha outcome_sha before ≡ read_ok r
  unfolding read_slot read_terms terms_of
  IsSlot-read_slot slot claim_sha outcome_sha before r s =
      bind_at _ _ s.is_read
      ∙ bind_at _ _ (ap (λ b. read_terms (terms_of b)) s.reserves)
      ∙ bind_at _ _ s.base_read
      ∙ bind_at _ _ (ap guard s.linked)
      ∙ bind_at _ _ s.outcome_read
      ∙ ap read_ok (same_Reservation r slot r.claim.event.sequence s.at_slot s.same_sequence)

  -- The runs of the loop over the slots from 1 to `n` that end well.
  pub data IsFold (claim outcome : ℕ → Option Sha) : ℕ → List Reservation → Type 0 where
    no_slot : IsFold claim outcome zero []
    next_slot_read :
        {n : ℕ} {before : List Reservation} {r : Reservation}
        → IsFold claim outcome n before
        → IsSlot (suc n) (claim (suc n)) (outcome (suc n)) before r
        → any (same_identity r) before ≡ false
        → IsFold claim outcome (suc n) (r ∷ before)

  pub fold_slots-IsFold :
      (claim outcome : ℕ → Option Sha) (n : ℕ) (rs : List Reservation)
      → fold_slots codec repository family commits claim outcome n ≡ read_ok rs
      → IsFold claim outcome n rs
  unfolding fold_slots
  fold_slots-IsFold claim outcome zero rs h =
      subst (IsFold claim outcome zero) (read_inj _ _ h) no_slot
  fold_slots-IsFold claim outcome (suc n) rs h =
      let (before, e₁, h₁) =
        bind-read_ok (fold_slots codec repository family commits claim outcome n) _ h in
      let (r, e₂, h₂) =
        bind-read_ok
          (read_slot codec repository family commits (suc n) (claim (suc n)) (outcome (suc n))
            before)
          _ h₁ in
      let (u, e₃, h₃) = bind-read_ok (guard (not (any (same_identity r) before))) _ h₂ in
      subst (IsFold claim outcome (suc n)) (read_inj _ _ h₃) (
        next_slot_read (fold_slots-IsFold claim outcome n before e₁)
          (read_slot-IsSlot (suc n) _ _ before r e₂) (not-true _ (guard-read_ok _ e₃)))

  pub IsFold-fold_slots :
      (claim outcome : ℕ → Option Sha) {n : ℕ} {rs : List Reservation}
      → IsFold claim outcome n rs
      → fold_slots codec repository family commits claim outcome n ≡ read_ok rs
  unfolding fold_slots
  IsFold-fold_slots claim outcome no_slot = refl
  IsFold-fold_slots claim outcome (next_slot_read {n} {before} {r} d s single) =
      bind_at _ _ (IsFold-fold_slots claim outcome d)
      ∙ bind_at _ _ (IsSlot-read_slot (suc n) _ _ before r s)
      ∙ bind_at _ _ (ap (λ b. guard (not b)) single)
