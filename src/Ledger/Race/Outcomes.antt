-- ===== src/Ledger/Race/Outcomes.antt =====
-- `appendOutcome` of mcp/ground-control/lib/release-identity.js on a log that others extend: the log
-- can be read with the outcome.
use ground_control.Prelude.{
  arith, Bool, List, ◌≡◌, find, All, true, false, some, ◌∷◌, ◌≤◌, if◌then◌else◌, length, [],
  Bool-cases, suc, ◌∙◌, ap, inl, sym, ℕ, inr, ◌==◌, map, subst, refl, ◌&&◌, ◌≢◌,
}
use ground_control.Ledger.Fold.{
  Commit, Reservation, outcome_follows_claim, first_parent, read_outcome, artifacts_match, sha_eq,
  slot_of, EventCommit, guard, ◌>>=◌, read_ok,
}
use mathlib.Core.List.{Memᴰ}
use mathlib.Core.List.Memᴰ
use ground_control.Ledger.Event.{Codec, Body, Sha}
use ground_control.Ledger.Log.{IsLog, next_claim, bind_at}
use ground_control.Ledger.Claim.{outcome_event, Caller, owned_by, is_owned_by}
use ground_control.Prelude.Text.{Text, text_eq_refl}
use ground_control.Ledger.Bare.{bare, IsSettled, no_outcomes}
use ground_control.Ledger.Race.{add_outcome, Repo, Settling}
use ground_control.Ledger.Race.Slots.{
  none≢some, slot_of-head, shape_lem, has_slots_lem, has_good_shape_lem, slot_of-tail,
}
use ground_control.Ledger.Validity.{some_inj, IsFold-IsLog}
use ground_control.Ledger.Race.ClaimStep.{sha_eq_refl}
use ground_control.Ledger.Race.Invariant.{
  IsReadable, seen_lem, ReadsTo-prefix, claim_at, outcome_at,
}
use ground_control.Ledger.Race.Claims.{==_refl, read_event-IsWritten}

pub if_true : {A : Type 0} (b : Bool) (x y : A) → b ≡ true → (if b then x else y) ≡ x
if_true b x y h = rw h refl

pub if_false : {A : Type 0} (b : Bool) (x y : A) → b ≡ false → (if b then x else y) ≡ y
if_false b x y h = rw h refl

pub ==_false : (m n : ℕ) → (m == n) ≡ false → m ≢ n
==_false m n h e = ground (arith, h, e)

find-some :
    (p : Reservation → Bool) (rs : List Reservation) (q : Reservation)
    → find p rs ≡ some q
    → Memᴰ q rs
find-some p [] q h = absurd (none≢some q h)
find-some p (r ∷ rs) q h = elim (Bool-cases (p r)) [
  | inl good ↦
      let e = sym (if_true (p r) (some r) (find p rs) good) ∙ h in Memᴰ.head (sym (some_inj r q e))
  | inr bad ↦ Memᴰ.tail (find-some p rs q (sym (if_false (p r) (some r) (find p rs) bad) ∙ h))
]

All-Memᴰ :
    {A : Type 0} (P Q : A → Type 0) (xs : List A)
    → ((x : A) → Memᴰ x xs → P x → Q x)
    → All P xs
    → All Q xs
All-Memᴰ P Q [] f h = tt
All-Memᴰ P Q (x ∷ xs) f h =
    (f x (Memᴰ.head refl) h.0, All-Memᴰ P Q xs (λ y m. f y (Memᴰ.tail m)) h.1)

-- The slots of a log count its reservations.
slot-IsLog :
    (rs : List Reservation) (q : Reservation)
    → IsLog rs
    → Memᴰ q rs
    → (1 ≤ q.slot) × (q.slot ≤ length rs)
slot-IsLog [] q log x = elim x [ ]
slot-IsLog (r ∷ rs) q (next_claim log f) (Memᴰ.head e) =
    let at : q.slot ≡ suc (length rs) = ap (λ x. x.slot) e ∙ f.next_slot in
    (omega (arith, at), omega (arith, at))
slot-IsLog (r ∷ rs) q (next_claim log f) (Memᴰ.tail m) =
    let (low, high) = slot-IsLog rs q log m in (low, omega (arith, high))

-- A slot has one reservation.
slot-IsLog_unique :
    (rs : List Reservation) (p q : Reservation)
    → IsLog rs
    → Memᴰ p rs
    → Memᴰ q rs
    → p.slot ≡ q.slot
    → p ≡ q
slot-IsLog_unique [] p q log x y same = elim x [ ]
slot-IsLog_unique (r ∷ rs) p q (next_claim log f) (Memᴰ.head e) (Memᴰ.head e') same = e ∙ sym e'
slot-IsLog_unique (r ∷ rs) p q (next_claim log f) (Memᴰ.head e) (Memᴰ.tail m) same =
    let (_, high) = slot-IsLog rs q log m in
    let at = ap (λ x. x.slot) e ∙ f.next_slot in absurd (omega (arith, at, high, same))
slot-IsLog_unique (r ∷ rs) p q (next_claim log f) (Memᴰ.tail m) (Memᴰ.head e) same =
    let (_, high) = slot-IsLog rs p log m in
    let at = ap (λ x. x.slot) e ∙ f.next_slot in absurd (omega (arith, at, high, same))
slot-IsLog_unique (r ∷ rs) p q (next_claim log f) (Memᴰ.tail m) (Memᴰ.tail m') same =
    slot-IsLog_unique rs p q log m m' same

sequence-IsLog :
    (rs : List Reservation) (q : Reservation)
    → IsLog rs
    → Memᴰ q rs
    → q.claim.event.sequence ≡ q.sequence
sequence-IsLog [] q log x = elim x [ ]
sequence-IsLog (r ∷ rs) q (next_claim log f) (Memᴰ.head e) =
    ap (λ x. x.claim.event.sequence) e ∙ f.is_sequence ∙ ap (λ x. x.sequence) (sym e)
sequence-IsLog (r ∷ rs) q (next_claim log f) (Memᴰ.tail m) = sequence-IsLog rs q log m

follows_lem :
    (caller : Caller) (mine : Reservation) (body : Body) (k : Commit)
    → mine.claim.event.sequence ≡ mine.sequence
    → artifacts_match body mine.terms ≡ true
    → k.tree ≡ mine.claim.commit.tree
    → k.parents ≡ mine.claim.commit.sha ∷ []
    → outcome_follows_claim
        (record { event = outcome_event caller mine body; commit = k })
        mine.claim
        mine.terms
      ≡ true
unfolding outcome_follows_claim outcome_event first_parent
follows_lem caller mine body k e₁ e₂ e₃ e₄ =
    let rooted : sha_eq (first_parent k.parents) (some mine.claim.commit.sha) ≡ true =
      ap (λ p. sha_eq (first_parent p) (some mine.claim.commit.sha)) e₄
      ∙ sha_eq_refl (some mine.claim.commit.sha) in
    let in_tree : (k.tree == mine.claim.commit.tree) ≡ true = ground (arith, e₃) in
    let numbered : (mine.sequence == mine.claim.event.sequence) ≡ true = ground (arith, e₁) in
    rw
      (
        rooted,
        in_tree,
        numbered,
        ==_refl mine.claim.event.issue_number,
        text_eq_refl mine.claim.event.idempotency_hash,
        e₂,
      )
      refl

module _ (codec : Codec) (repository family : Text) where
  settled_lem :
      (r : Repo) (slot : ℕ) (sha : Sha) (s : Settling codec repository family r slot sha)
      → IsLog s.before
      → IsSettled codec repository family r.commits
          (λ n. slot_of n ((slot, sha) ∷ r.refs.outcomes))
          (bare s.mine)
  unfolding bare read_outcome owned_by outcome_event
  settled_lem r slot sha s log =
      let mem = find-some (is_owned_by s.caller) s.before s.mine s.owns in
      let ev = outcome_event s.caller s.mine s.body in
      let there : slot_of s.mine.slot ((slot, sha) ∷ r.refs.outcomes) ≡ some sha =
        ap (λ k. slot_of k ((slot, sha) ∷ r.refs.outcomes)) (sym s.at_slot)
        ∙ slot_of-head slot sha r.refs.outcomes in
      let read =
        read_event-IsWritten codec repository family r.commits sha ev s.message
          s.mine.claim.commit.tree s.mine.claim.commit.sha s.written s.built s.for_repository
          s.for_family in
      let o : EventCommit = record { event = ev; commit = s.written.commit } in
      let follows =
        follows_lem s.caller s.mine s.body s.written.commit (sequence-IsLog s.before s.mine log mem)
          s.matched s.written.has_tree s.written.has_parent in
      (
        some o,
        ap (read_outcome codec repository family r.commits s.mine.slot s.mine.claim s.mine.terms)
              there
            ∙ bind_at _ _ read
            ∙ ap (λ b. guard b >>= λ _. read_ok (some o))
                (ap (λ b. b && outcome_follows_claim o s.mine.claim s.mine.terms) s.decided
                  ∙ follows),
      )

  resettled :
      (r : Repo) (slot : ℕ) (sha : Sha) (s : Settling codec repository family r slot sha)
      (bs : List Reservation) (b : Reservation)
      → IsLog s.before
      → IsLog bs
      → Memᴰ (bare s.mine) bs
      → Memᴰ b bs
      → IsSettled codec repository family r.commits (outcome_at r) b
      → IsSettled codec repository family r.commits
          (λ n. slot_of n ((slot, sha) ∷ r.refs.outcomes))
          b
  unfolding bare
  resettled r slot sha s bs b log whole mem m old = elim (Bool-cases (b.slot == slot)) [
    | inl same ↦
        let at : b.slot ≡ s.mine.slot = ground (arith, same, s.at_slot) in
        subst
          (IsSettled codec repository family r.commits
            (λ n. slot_of n ((slot, sha) ∷ r.refs.outcomes)))
          (slot-IsLog_unique bs (bare s.mine) b whole mem m (sym at)) (settled_lem r slot sha s log)
    | inr other ↦
        let apart : slot_of b.slot ((slot, sha) ∷ r.refs.outcomes) ≡ outcome_at r b.slot =
          slot_of-tail b.slot slot sha r.refs.outcomes (==_false b.slot slot other) in
        (
          old.0,
          ap (read_outcome codec repository family r.commits b.slot b.claim b.terms) apart ∙ old.1,
        )
  ]

  pub add_outcome-IsReadable :
      (r : Repo) (slot : ℕ) (sha : Sha)
      → IsReadable codec repository family r
      → Settling codec repository family r slot sha
      → IsReadable codec repository family (add_outcome slot sha r)
  unfolding add_outcome owned_by bare
  add_outcome-IsReadable r slot sha ok s =
      let (reads, log, len) =
        seen_lem codec repository family s.seen r s.before s.later s.seen_log in
      let (new, split) =
        ReadsTo-prefix codec repository family r _ _ (map bare s.before) ok.reservations reads
          ok.claims_read s.later.grown in
      let mem : Memᴰ (bare s.mine) ok.reservations = subst (Memᴰ (bare s.mine)) (sym split) (
        Memᴰ.append_right new
          (Memᴰ.map bare (find-some (is_owned_by s.caller) s.before s.mine s.owns))) in
      let (whole, size) =
        IsFold-IsLog codec repository family r.commits (claim_at r) no_outcomes ok.claims_read in
      let (low, high) = slot-IsLog ok.reservations (bare s.mine) whole mem in
      let (small, slots, owned) = shape_lem r.refs ok.good_shape in
      let (v, there) =
        has_slots_lem _ _ slots slot (omega (arith, low, s.at_slot))
          (omega (arith, high, size, s.at_slot)) in
      record {
        reservations = ok.reservations;
        claims_read = ok.claims_read;
        settled =
            All-Memᴰ _ _ ok.reservations
              (λ b m old. resettled r slot sha s ok.reservations b log whole mem m old) ok.settled;
        good_shape =
            has_good_shape_lem
              (record { claims = r.refs.claims; outcomes = (slot, sha) ∷ r.refs.outcomes }) small
              slots (rw (there, owned) refl);
      }
