-- ===== src/Ledger/Validity.antt =====
-- `foldReleaseLedger` of mcp/ground-control/lib/release-identity-ledger.js: what it returns is a log.
use ground_control.Prelude.{
  arith, List, ◌≡◌, Option, true, All, ◌≤◌, ℕ, suc, some, ◌∷◌, length, any, ◌<◌, All-map, false, [],
  none, ◌∙◌, sym, ◌&&◌, ap, subst, Bool, refl, if◌then◌else◌,
}
use ground_control.Ledger.Fold.{
  Commit, is_linked, highest, EventCommit, Reservation, event_at, read_event, read_outcome,
  first_parent, is_event_of, read_ok, last_claim, is_outcome, read_commit, outcome_follows_claim,
  same_identity, guard, accept_at, malformed, fold_release_ledger, RefEntry, Classified,
  classify_refs, slot_of,
}
use ground_control.Ledger.Event.{Codec, Claim, Sha, Event}
use ground_control.Prelude.Text.{Text}
use ground_control.Ledger.Log.{
  IsLog, IsSlot, next_claim, bind-read_ok, sha_eq→eq, Follows, read_inj, guard-read_ok, no_claim,
  IsFold, next_slot_read, no_slot, fold_slots-IsFold,
}

pub some_inj : {A : Type 0} (a b : A) → some a ≡ some b → a ≡ b
some_inj a b h = cc

if-read_ok :
    {A : Type 0} (b : Bool) (a c : A)
    → (if b then read_ok a else malformed) ≡ read_ok c
    → (b ≡ true) × (a ≡ c)
if-read_ok true a c h = (refl, read_inj a c h)
if-read_ok false a c h = cc

pub and-true : (a b : Bool) → (a && b) ≡ true → (a ≡ true) × (b ≡ true)
and-true true b h = (refl, h)
and-true false b h = cc

linked_lem :
    (claim : EventCommit) (terms : Claim) (base : Commit) (before : List Reservation)
    → is_linked claim terms base before ≡ true
    → (first_parent claim.commit.parents ≡ some terms.base_revision)
      × (terms.previous_claim ≡ last_claim before)
      × (highest before < claim.event.sequence)
unfolding is_linked
linked_lem claim terms base before h =
    (sha_eq→eq _ _ (ground (arith, h)), sha_eq→eq _ _ (ground (arith, h)), ground (arith, h))

-- In a log the newest sequence is the highest.
highest-IsLog : (rs : List Reservation) → IsLog rs → All (λ q. q.sequence ≤ highest rs) rs
unfolding highest
highest-IsLog [] no_claim = tt
highest-IsLog (r ∷ rs) (next_claim log follows) =
    (omega arith, All-map _ _ rs (λ q h. omega (arith, h)) follows.above)

module _ (codec : Codec) (repository family : Text) (commits : Sha → Option Commit) where
  accept_at_lem :
      (slot : ℕ) (c : Commit) (parsed : Option Event) (e : EventCommit)
      → accept_at codec repository family commits slot c parsed ≡ read_ok e
      → e.event.slot ≡ slot
  unfolding accept_at is_event_of
  accept_at_lem slot c none e h = cc
  accept_at_lem slot c (some e') e h =
      let (good, same) = if-read_ok (is_event_of codec repository family commits slot e' c) _ _ h in
      ap (λ x. x.event.slot) (sym same) ∙ ground (arith, good)

  pub slot-read_event :
      (slot : ℕ) (sha : Option Sha) (e : EventCommit)
      → read_event codec repository family commits slot sha ≡ read_ok e
      → e.event.slot ≡ slot
  unfolding read_event event_at
  slot-read_event slot sha e h =
      let (c, _, h₁) = bind-read_ok (read_commit codec repository family commits sha) _ h in
      accept_at_lem slot c _ e h₁

  read_outcome_lem :
      (slot : ℕ) (claim : EventCommit) (terms : Claim) (sha : Option Sha) (o : EventCommit)
      → read_outcome codec repository family commits slot claim terms sha ≡ read_ok (some o)
      → (is_outcome o.event.body ≡ true) × (outcome_follows_claim o claim terms ≡ true)
  unfolding read_outcome
  read_outcome_lem slot claim terms none o h = cc
  read_outcome_lem slot claim terms (some sha) o h =
      let (o', e₁, h₁) =
        bind-read_ok (read_event codec repository family commits slot (some sha)) _ h in
      let (u, e₂, h₂) =
        bind-read_ok (guard (is_outcome o'.event.body && outcome_follows_claim o' claim terms)) _
          h₁ in
      let same : o' ≡ o = some_inj _ _ (read_inj _ _ h₂) in
      let good = guard-read_ok _ e₂ in
      subst (λ x. (is_outcome x.event.body ≡ true) × (outcome_follows_claim x claim terms ≡ true))
        same (and-true _ _ good)

  slot-Follows :
      (before : List Reservation) (claim_sha outcome_sha : Option Sha) (r : Reservation)
      → IsLog before
      → IsSlot codec repository family commits (suc (length before)) claim_sha outcome_sha before r
      → any (same_identity r) before ≡ false
      → Follows before r
  slot-Follows before claim_sha outcome_sha r log s single =
      let (roots, last, above) = linked_lem r.claim r.terms s.base before s.linked in
      record {
        next_slot = s.at_slot;
        above =
            All-map _ _ before (λ q h. omega (arith, h, above, s.same_sequence))
              (highest-IsLog before log);
        names_last = last;
        is_single = single;
        is_claim = s.reserves;
        claims_slot = slot-read_event _ claim_sha r.claim s.is_read ∙ sym s.at_slot;
        roots_in_base = roots;
        is_sequence = sym s.same_sequence;
        settled = λ o is.
            read_outcome_lem _ r.claim r.terms outcome_sha o (s.outcome_read ∙ ap read_ok is);
      }

  pub IsFold-IsLog :
      (claim outcome : ℕ → Option Sha) {n : ℕ} {rs : List Reservation}
      → IsFold codec repository family commits claim outcome n rs
      → IsLog rs × (length rs ≡ n)
  IsFold-IsLog claim outcome no_slot = (no_claim, refl)
  IsFold-IsLog claim outcome (next_slot_read {n} {before} {r} d s single) =
      let (log, len) = IsFold-IsLog claim outcome d in
      let at_length =
        subst
          (λ m.
            IsSlot codec repository family commits (suc m) (claim (suc n)) (outcome (suc n)) before
              r)
          (sym len) s in
      (next_claim log (slot-Follows before _ _ r log at_length single), ap suc len)

  -- What the fold of the references returns is a log with as many reservations as there are claims.
  pub fold_release_ledger-IsLog :
      (refs : List RefEntry) (rs : List Reservation)
      → fold_release_ledger codec repository family commits refs ≡ read_ok rs
      → IsLog rs
        × ((c : Classified) × (classify_refs family refs ≡ read_ok c)
            × (length rs ≡ length c.claims))
  unfolding fold_release_ledger
  fold_release_ledger-IsLog refs rs h =
      let (c, e, h₁) = bind-read_ok (classify_refs family refs) _ h in
      let (log, len) =
        IsFold-IsLog (λ n. slot_of n c.claims) (λ n. slot_of n c.outcomes)
          (fold_slots-IsFold codec repository family commits (λ n. slot_of n c.claims)
            (λ n. slot_of n c.outcomes) _ rs h₁) in
      (log, (c, e, len))
