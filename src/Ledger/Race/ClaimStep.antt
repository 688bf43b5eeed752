-- ===== src/Ledger/Race/ClaimStep.antt =====
-- `claimNext` of mcp/ground-control/lib/release-identity.js on a log that others extend: a claim that
-- wins its slot was made from the whole log, so the log can be read with it.
use mathlib.Core.List.{Memᴰ}
use ground_control.Prelude.{
  arith, Option, List, ℕ, ◌≡◌, true, some, ◌<◌, ◌∷◌, [], length, ap, ◌+◌, none, ◌∙◌, refl, ◌==◌,
  Bool-cases, leb, lt→ltb, inl, sym, inr, suc, map, subst, any, false, ◌≤◌,
}
use ground_control.Ledger.Fold.{
  Commit, sha_eq, is_linked, Reservation, first_parent, highest, last_claim, read_commit,
  read_outcome, read_event, read_ok, found, slot_of, same_identity, has_slots, has_good_shape,
}
use ground_control.Ledger.Claim.{next_sequence, Base, claim_event, claim_terms, Caller}
use ground_control.Ledger.Event.{Codec, Sha, build_validated_message, release_ledger_slots_max}
use ground_control.Prelude.Text.{Text}
use ground_control.Ledger.Race.{Repo, Claiming, add_claim}
use ground_control.Ledger.Race.Invariant.{
  IsReadable, seen_lem, ReadsTo-unique, ReadsTo, claim_at, outcome_at,
}
use ground_control.Ledger.Race.Claims.{==_refl, plan_claim_lem, read_event-IsWritten, owned_lem}
use ground_control.Ledger.Race.Slots.{
  shape_lem, has_slots_lem, none≢some, slot_of-tail, slot_of-head, has_slots-kept, owned-kept,
  no_orphan, has_good_shape_lem,
}
use ground_control.Ledger.Bare.{
  bare, is_linked-map, any-same_identity, bare-bare, IsFold-bare, no_outcomes, IsSettled-map,
}
use ground_control.Ledger.Log.{IsSlot, next_slot_read}

pub sha_eq_refl : (a : Option Sha) → sha_eq a a ≡ true
unfolding sha_eq
sha_eq_refl none = refl
sha_eq_refl (some a) = ==_refl a

next_sequence_lem :
    (base : Base) (before : List Reservation) → highest before < next_sequence base before
unfolding next_sequence
next_sequence_lem base before = ground arith

linked_claim :
    (codec : Codec) (caller : Caller) (base : Base) (before : List Reservation) (branch : Text)
    (k b : Commit)
    → k.parents ≡ base.head ∷ []
    → k.tree ≡ base.tree
    → b.tree ≡ base.tree
    → is_linked
        (record { event = claim_event codec caller base before branch; commit = k })
        (claim_terms codec base before branch)
        b
        before
      ≡ true
unfolding is_linked claim_event claim_terms first_parent
linked_claim codec caller base before branch k b e₁ e₂ e₃ =
    let rooted : sha_eq (first_parent k.parents) (some base.head) ≡ true =
      ap (λ p. sha_eq (first_parent p) (some base.head)) e₁ ∙ sha_eq_refl (some base.head) in
    let in_tree : (k.tree == b.tree) ≡ true = ground (arith, e₂, e₃) in
    rw
      (rooted, in_tree, sha_eq_refl (last_claim before), lt→ltb _ _ (next_sequence_lem base before))
      refl

module _ (codec : Codec) (repository family : Text) where
  -- Where a slot is free, the run that claims it has read all the claims there are.
  claims_all_lem :
      (r : Repo) (slot : ℕ) (sha : Sha)
      → IsReadable codec repository family r
      → (c : Claiming codec repository family r slot sha) → slot ≡ length c.before + 1
      → length c.before ≡ length c.seen.refs.claims
      → length r.refs.claims ≡ length c.before
  claims_all_lem r slot sha ok c at len =
      let (_, slots, _) = shape_lem r.refs ok.good_shape in
      elim (Bool-cases (leb slot (length r.refs.claims))) [
        | inl taken ↦
            let (v, there) =
              has_slots_lem _ _ slots slot (omega (arith, at)) (ground (arith, taken)) in
            absurd (none≢some v (sym c.is_free ∙ there))
        | inr free ↦ ground (arith, free, at, len, c.later.grown)
      ]

  -- The reservation that a claim makes.
  unfoldable pub claimed :
      (r : Repo) (slot : ℕ) (sha : Sha)
      → Claiming codec repository family r slot sha
      → ℕ
      → Reservation
  claimed r slot sha c n = record {
    slot = suc n;
    sequence = next_sequence c.base c.before;
    claim = record {
      event = claim_event codec c.caller c.base c.before c.branch;
      commit = c.written.commit;
    };
    terms = claim_terms codec c.base c.before c.branch;
    outcome = none;
  }

  claimed-IsSlot :
      (r : Repo) (slot : ℕ) (sha : Sha) (c : Claiming codec repository family r slot sha) (n : ℕ)
      (bs : List Reservation) (claim : Option Sha)
      → n ≡ length c.before
      → claim ≡ some sha
      → map bare bs ≡ map bare c.before
      → IsSlot codec repository family r.commits (suc n) claim none bs (claimed r slot sha c n)
  unfolding claimed claim_event read_commit read_outcome
  claimed-IsSlot r slot sha c n bs claim at there same =
      let (is, built, _) =
        plan_claim_lem codec c.is_outside c.is_taken c.caller c.base c.before c.branch c.event
          c.message c.planned in
      let ev = claim_event codec c.caller c.base c.before c.branch in
      let read =
        read_event-IsWritten codec repository family r.commits sha ev c.message c.base.tree
          c.base.head c.written (ap (build_validated_message codec) (sym is) ∙ built)
          c.for_repository c.for_family in
      let read_here : read_event codec repository family r.commits (suc n) (some sha)
          ≡ read_ok (record { event = ev; commit = c.written.commit }) =
        subst
          (λ k.
            read_event codec repository family r.commits k (some sha)
            ≡ read_ok (record { event = ev; commit = c.written.commit }))
          (omega (arith, at)) read in
      record {
        at_slot = refl;
        same_sequence = refl;
        is_read = ap (read_event codec repository family r.commits (suc n)) there ∙ read_here;
        reserves = refl;
        base = c.base_commit;
        base_read = ap found c.base_stored;
        linked =
            is_linked-map _ _ _ bs c.before same
            ∙ linked_claim codec c.caller c.base c.before c.branch c.written.commit c.base_commit
                c.written.has_parent c.written.has_tree c.base_tree;
        outcome_read = refl;
      }

  claimed_single :
      (r : Repo) (slot : ℕ) (sha : Sha) (c : Claiming codec repository family r slot sha) (n : ℕ)
      (bs : List Reservation)
      → map bare bs ≡ map bare c.before
      → any (same_identity (claimed r slot sha c n)) bs ≡ false
  unfolding claimed claim_event
  claimed_single r slot sha c n bs same =
      any-same_identity (claimed r slot sha c n) bs c.before same
      ∙ owned_lem c.caller c.before (claimed r slot sha c n) refl refl c.owns_none

  pub kept_lem :
      (r : Repo) (slot : ℕ) (sha : Sha)
      → slot_of slot r.refs.claims ≡ none
      → (k : ℕ) (v : Sha) → slot_of k r.refs.claims ≡ some v
      → slot_of k ((slot, sha) ∷ r.refs.claims) ≡ some v
  kept_lem r slot sha free k v at =
      slot_of-tail k slot sha r.refs.claims
        (λ same. none≢some v (sym free ∙ ap (λ i. slot_of i r.refs.claims) (sym same) ∙ at))
      ∙ at

  shape_kept :
      (r : Repo) (slot : ℕ) (sha : Sha)
      → has_good_shape r.refs ≡ true
      → slot ≡ suc (length r.refs.claims)
      → slot ≤ release_ledger_slots_max
      → slot_of slot r.refs.claims ≡ none
      → has_good_shape (add_claim slot sha r).refs ≡ true
  unfolding add_claim has_slots
  shape_kept r slot sha shape at small free =
      let (_, slots, owned) = shape_lem r.refs shape in
      let kept = kept_lem r slot sha free in
      let claims' = (slot, sha) ∷ r.refs.claims in
      let there : slot_of (suc (length r.refs.claims)) claims' ≡ some sha =
        ap (λ k. slot_of k claims') (sym at) ∙ slot_of-head slot sha r.refs.claims in
      has_good_shape_lem (record { claims = claims'; outcomes = r.refs.outcomes })
        (omega (arith, at, small))
        (rw (has_slots-kept (length r.refs.claims) r.refs.claims claims' kept slots, there) refl)
        (owned-kept r.refs.outcomes _ claims' kept owned)

  pub add_claim-IsReadable :
      (r : Repo) (slot : ℕ) (sha : Sha)
      → IsReadable codec repository family r
      → (c : Claiming codec repository family r slot sha)
      → (now : IsReadable codec repository family (add_claim slot sha r)) × (n : ℕ) × Memᴰ
          (claimed r slot sha c n)
          now.reservations
  unfolding add_claim claimed read_outcome claim_event
  add_claim-IsReadable r slot sha ok c =
      let n = length r.refs.claims in
      let (is, built, small) =
        plan_claim_lem codec c.is_outside c.is_taken c.caller c.base c.before c.branch c.event
          c.message c.planned in
      let at : slot ≡ length c.before + 1 = c.at_slot ∙ ap (λ e. e.slot) is in
      let (reads, log, len) =
        seen_lem codec repository family c.seen r c.before c.later c.seen_log in
      let whole : n ≡ length c.before = claims_all_lem r slot sha ok c at len in
      let same : ok.reservations ≡ map bare c.before =
        ReadsTo-unique codec repository family r n ok.reservations (map bare c.before)
          ok.claims_read
          (subst (λ k. ReadsTo codec repository family r k (map bare c.before)) (sym (whole ∙ len))
            reads) in
      let bs = map bare ok.reservations in
      let alike : map bare bs ≡ map bare c.before =
        bare-bare ok.reservations ∙ ap (map bare) same ∙ bare-bare c.before in
      let here : slot ≡ suc n = omega (arith, at, whole) in
      let r' = add_claim slot sha r in
      let there : claim_at r' (suc n) ≡ some sha =
        ap (claim_at r') (sym here) ∙ slot_of-head slot sha r.refs.claims in
      let below =
        IsFold-bare codec repository family r.commits r.commits (λ s k e. e) (claim_at r)
          (claim_at r') no_outcomes
          (λ k l u. slot_of-tail k slot sha r.refs.claims (λ e. omega (arith, e, u, here)))
          ok.claims_read in
      let (_, _, owned) = shape_lem r.refs ok.good_shape in
      let unsettled : outcome_at r (suc n) ≡ none =
        ap (outcome_at r) (sym here) ∙ no_orphan _ _ slot owned c.is_free in
      let now : IsReadable codec repository family (add_claim slot sha r) = record {
        reservations = claimed r slot sha c n ∷ bs;
        claims_read =
            next_slot_read below (claimed-IsSlot r slot sha c n bs _ whole there alike)
              (claimed_single r slot sha c n bs alike);
        settled = (
          (
            none,
            ap
                (read_outcome codec repository family r.commits (suc n)
                  (claimed r slot sha c n).claim (claimed r slot sha c n).terms)
                unsettled,
          ),
          IsSettled-map codec repository family r.commits (outcome_at r) ok.reservations ok.settled,
        );
        good_shape = shape_kept r slot sha ok.good_shape here (omega (arith, at, small)) c.is_free;
      } in
      (now, n, Memᴰ.head refl)
