-- ===== src/Ledger/Race/Claims.antt =====
-- A claim of mcp/ground-control/lib/release-identity.js, made with what a run has read of the log:
-- the log with the claim can be read.
use ground_control.Prelude.{
  arith, Bool, ◌||◌, Option, ◌≡◌, ◌≢◌, false, List, some, if◌then◌else◌, true, none, refl, any,
  length, ◌∷◌, ◌+◌, [], ◌≤◌, not, ap, ◌∙◌, ℕ, find, ◌==◌, ltb, ◌&&◌,
}
use ground_control.Ledger.Fold.{
  Commit, same_identity, read_event, read_commit, Reservation, found, event_at, accept_at,
  is_event_of, one_parent, read_ok, malformed,
}
use ground_control.Ledger.Claim.{
  plan_message, plan_claim, owned_by, ClaimPlan, is_owned_by, Caller, claim_with, Base, claim_event,
  sequence_exhausted, path_escapes_checkout, identity_collision, next_sequence,
}
use ground_control.Ledger.Event.{
  Codec, Event, Message, build_validated_message, Sha, release_ledger_slots_max, parse-build,
  parse_release_event_message,
}
use ground_control.Ledger.Family.{Identity, release_sequence_renderable}
use ground_control.Prelude.Text.{Text, text_eq, text_eq_refl}
use ground_control.Ledger.Race.{IsWritten}
use ground_control.Ledger.Log.{bind_at}

plan_message_lem :
    (e e' : Event) (o : Option Message) (m : Message)
    → plan_message e o ≡ claim_with e' m
    → (e' ≡ e) × (o ≡ some m)
unfolding plan_message
plan_message_lem e e' none m h = absurd (ground (arith, h))
plan_message_lem e e' (some n) m h = (cc, cc)

-- A plan that is not a refusal.
if_refused :
    (b : Bool) (refusal rest : ClaimPlan) (e : Event) (m : Message)
    → refusal ≢ claim_with e m
    → (if b then refusal else rest) ≡ claim_with e m
    → (b ≡ false) × (rest ≡ claim_with e m)
if_refused true refusal rest e m apart h = absurd (apart h)
if_refused false refusal rest e m apart h = (refl, h)

pub ltb-false : (a b : ℕ) → ltb a b ≡ false → b ≤ a
ltb-false a b h = ground (arith, h)

pub or_false : (a b : Bool) → (a || b) ≡ false → (a ≡ false) × (b ≡ false)
or_false true b h = cc
or_false false b h = (refl, h)

sequence_lem : (e : Event) (m : Message) → sequence_exhausted ≢ claim_with e m
sequence_lem e m h = ground (arith, h)

path_lem : (e : Event) (m : Message) → path_escapes_checkout ≢ claim_with e m
path_lem e m h = ground (arith, h)

collision_lem : (e : Event) (m : Message) → identity_collision ≢ claim_with e m
collision_lem e m h = ground (arith, h)

pub plan_claim_lem :
    (codec : Codec) (is_outside : Identity → Bool) (is_taken : Text → Bool) (caller : Caller)
    (base : Base) (before : List Reservation) (branch : Text) (e : Event) (m : Message)
    → plan_claim codec is_outside is_taken caller base before branch ≡ claim_with e m
    → (e ≡ claim_event codec caller base before branch)
      × (build_validated_message codec e ≡ some m)
      × (length before + 1 ≤ release_ledger_slots_max)
unfolding plan_claim
plan_claim_lem codec is_outside is_taken caller base before branch e m h =
    let (fits, h₁) = if_refused _ sequence_exhausted _ e m (sequence_lem e m) h in
    let (inside, h₂) = if_refused _ path_escapes_checkout _ e m (path_lem e m) h₁ in
    let (free, h₃) = if_refused _ identity_collision _ e m (collision_lem e m) h₂ in
    let (same, built) = plan_message_lem _ e _ m h₃ in
    let (renderable, small) =
      or_false (not (release_sequence_renderable base.family (next_sequence base before))) _ fits in
    (same, rw same built, ltb-false _ _ small)

pub ==_refl : (n : ℕ) → (n == n) ≡ true
==_refl n = ground arith

==_comm : (m n : ℕ) → (m == n) ≡ (n == m)
==_comm m n = ground arith

text_eq_comm : (s t : Text) → text_eq s t ≡ text_eq t s
unfolding text_eq
text_eq_comm [] [] = refl
text_eq_comm [] (b ∷ t) = refl
text_eq_comm (a ∷ s) [] = refl
text_eq_comm (a ∷ s) (b ∷ t) = rw (==_comm a b, text_eq_comm s t) refl

find-none :
    (p : Reservation → Bool) (q : Reservation) (qs : List Reservation)
    → find p (q ∷ qs) ≡ none
    → (p q ≡ false) × (find p qs ≡ none)
find-none p q qs h = ground (arith, h)

pub owned_lem :
    (caller : Caller) (before : List Reservation) (r : Reservation)
    → r.claim.event.issue_number ≡ caller.issue_number
    → r.claim.event.idempotency_hash ≡ caller.idempotency_hash
    → owned_by caller before ≡ none
    → any (same_identity r) before ≡ false
unfolding owned_by is_owned_by same_identity
owned_lem caller [] r e₁ e₂ h = refl
owned_lem caller (q ∷ qs) r e₁ e₂ h =
    let (other, rest) = find-none (is_owned_by caller) q qs h in
    let apart : same_identity r q ≡ false =
      ap
        (λ n.
          (n == q.claim.event.issue_number)
          && text_eq r.claim.event.idempotency_hash q.claim.event.idempotency_hash)
        e₁
      ∙ ap
          (λ s.
            (caller.issue_number == q.claim.event.issue_number)
            && text_eq s q.claim.event.idempotency_hash)
          e₂
      ∙ ap (λ b. b && text_eq caller.idempotency_hash q.claim.event.idempotency_hash)
          (==_comm caller.issue_number q.claim.event.issue_number)
      ∙ ap (λ b. (q.claim.event.issue_number == caller.issue_number) && b)
          (text_eq_comm caller.idempotency_hash q.claim.event.idempotency_hash)
      ∙ other in
    rw (apart, owned_lem caller qs r e₁ e₂ rest) refl

module _ (codec : Codec) (repository family : Text) where
  -- A message that was built is read back at its slot.
  pub read_event-IsWritten :
      (commits : Sha → Option Commit) (sha : Sha) (e : Event) (m : Message) (tree parent : Sha)
      (w : IsWritten commits sha m tree parent)
      → build_validated_message codec e ≡ some m
      → e.repository ≡ repository
      → e.family ≡ family
      → read_event codec repository family commits e.slot (some sha)
        ≡ read_ok (record { event = e; commit = w.commit })
  unfolding read_event read_commit found event_at accept_at is_event_of one_parent
  read_event-IsWritten commits sha e m tree parent w built of_repository of_family =
      let (_, parsed) = parse-build codec e m built in
      let read : parse_release_event_message codec w.commit.message ≡ some e =
        ap (parse_release_event_message codec) w.has_message ∙ parsed in
      let accepted : is_event_of codec repository family commits e.slot e w.commit ≡ true =
        rw
          (
            of_repository,
            of_family,
            w.has_parent,
            text_eq_refl family,
            ==_refl e.slot,
            text_eq_refl (codec.to_lower repository),
          )
          refl in
      bind_at _ _ (ap found w.stored)
      ∙ ap (accept_at codec repository family commits e.slot w.commit) read
      ∙ ap (λ b. if b then read_ok (record { event = e; commit = w.commit }) else malformed)
          accepted
