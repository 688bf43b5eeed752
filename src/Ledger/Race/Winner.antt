-- ===== src/Ledger/Race/Winner.antt =====
-- The end of `claimAvailableIdentity` in mcp/ground-control/lib/release-identity.js: what the run that
-- has won a slot finds in the log.
use ground_control.Prelude.{
  arith, List, Bool, map, any, ◌≡◌, false, true, ◌∷◌, find, ℕ, ap, some, [], ◌∙◌, Bool-cases, inl,
  sym, inr, subst, ◌==◌, refl,
}
use ground_control.Ledger.Fold.{Reservation, read_ok, same_identity}
use mathlib.Core.List.{Memᴰ}
use mathlib.Core.List.Memᴰ
use ground_control.Ledger.Claim.{Caller, owned_by, is_owned_by, claim_event}
use ground_control.Ledger.Event.{Codec, Sha}
use ground_control.Prelude.Text.{Text, text_eq_iff, text_eq_refl}
use ground_control.Ledger.Log.{IsLog, next_claim}
use ground_control.Ledger.Bare.{bare}
use ground_control.Ledger.Race.{Repo, log_of, Claiming, Steps, add_claim}
use ground_control.Ledger.Race.Claims.{or_false, plan_claim_lem, ==_refl}
use ground_control.Ledger.Race.Outcomes.{if_true, if_false}
use ground_control.Ledger.Race.Slots.{true≢false}
use ground_control.Ledger.Race.ClaimStep.{add_claim-IsReadable, claimed}
use ground_control.Ledger.Race.Invariant.{
  log_of-IsReadable, IsReadable-log_of, seen_lem, ReadsTo-prefix, IsReadable-Later,
}
use ground_control.Ledger.Race.Safety.{Steps-IsReadable, Later-refl}
use ground_control.Ledger.Validity.{and-true}

Memᴰ-bare :
    (b : Reservation) (qs : List Reservation)
    → Memᴰ b (map bare qs)
    → (q : Reservation) × Memᴰ q qs × (b ≡ bare q)
Memᴰ-bare b [] m = elim m [ ]
Memᴰ-bare b (q ∷ qs) (Memᴰ.head e) = (q, Memᴰ.head refl, e)
Memᴰ-bare b (q ∷ qs) (Memᴰ.tail m) = let (p, m', e) = Memᴰ-bare b qs m in (p, Memᴰ.tail m', e)

any-Memᴰ :
    (p : Reservation → Bool) (q : Reservation) (qs : List Reservation)
    → Memᴰ q qs
    → any p qs ≡ false
    → p q ≡ false
any-Memᴰ p q [] m h = elim m [ ]
any-Memᴰ p q (x ∷ xs) (Memᴰ.head e) h = ap p e ∙ (or_false (p x) (any p xs) h).0
any-Memᴰ p q (x ∷ xs) (Memᴰ.tail m) h = any-Memᴰ p q xs m (or_false (p x) (any p xs) h).1

-- What `find` returns has the property and is a member; where a member has it, `find` returns one.
find-Memᴰ :
    (p : Reservation → Bool) (q : Reservation) (qs : List Reservation)
    → Memᴰ q qs
    → p q ≡ true
    → (f : Reservation) × (find p qs ≡ some f) × Memᴰ f qs × (p f ≡ true)
find-Memᴰ p q [] m h = elim m [ ]
find-Memᴰ p q (x ∷ xs) m h = elim (Bool-cases (p x)) [
  | inl good ↦ (x, if_true (p x) (some x) (find p xs) good, Memᴰ.head refl, good)
  | inr bad ↦
      let there : Memᴰ q xs = elim (Memᴰ.cases_cons m) [
        | inl e ↦ absurd (true≢false (sym h ∙ ap p e ∙ bad))
        | inr m' ↦ m'
      ] in
      let (f, e, mf, g) = find-Memᴰ p q xs there h in
      (f, if_false (p x) (some x) (find p xs) bad ∙ e, Memᴰ.tail mf, g)
]

==_join : (a b c : ℕ) → (a == b) ≡ true → (c == b) ≡ true → (a == c) ≡ true
==_join a b c h h' = ground (arith, h, h')

same_owner :
    (caller : Caller) (r q : Reservation)
    → is_owned_by caller r ≡ true
    → is_owned_by caller q ≡ true
    → same_identity r q ≡ true
unfolding is_owned_by same_identity
same_owner caller r q h h' =
    let (n, t) = and-true (r.claim.event.issue_number == caller.issue_number) _ h in
    let (n', t') = and-true (q.claim.event.issue_number == caller.issue_number) _ h' in
    let e = (text_eq_iff r.claim.event.idempotency_hash caller.idempotency_hash).0 t in
    let e' = (text_eq_iff q.claim.event.idempotency_hash caller.idempotency_hash).0 t' in
    let issue : (r.claim.event.issue_number == q.claim.event.issue_number) ≡ true =
      ==_join r.claim.event.issue_number caller.issue_number q.claim.event.issue_number n n' in
    rw
      (
        issue,
        (text_eq_iff r.claim.event.idempotency_hash q.claim.event.idempotency_hash).1 (e ∙ sym e'),
      )
      refl

-- In a log an idempotency identity has one reservation.
owner_unique :
    (caller : Caller) (rs : List Reservation) (p q : Reservation)
    → IsLog rs
    → Memᴰ p rs
    → Memᴰ q rs
    → is_owned_by caller p ≡ true
    → is_owned_by caller q ≡ true
    → p ≡ q
owner_unique caller [] p q log m m' h h' = elim m [ ]
owner_unique caller (r ∷ rs) p q (next_claim log f) (Memᴰ.head e) (Memᴰ.head e') h h' = e ∙ sym e'
owner_unique caller (r ∷ rs) p q (next_claim log f) (Memᴰ.head e) (Memᴰ.tail m) h h' = absurd (
    true≢false (
      sym (same_owner caller r q (ap (is_owned_by caller) (sym e) ∙ h) h')
      ∙ any-Memᴰ (same_identity r) q rs m f.is_single))
owner_unique caller (r ∷ rs) p q (next_claim log f) (Memᴰ.tail m) (Memᴰ.head e) h h' = absurd (
    true≢false (
      sym (same_owner caller r p (ap (is_owned_by caller) (sym e) ∙ h') h)
      ∙ any-Memᴰ (same_identity r) p rs m f.is_single))
owner_unique caller (r ∷ rs) p q (next_claim log f) (Memᴰ.tail m) (Memᴰ.tail m') h h' =
    owner_unique caller rs p q log m m' h h'

module _ (codec : Codec) (repository family : Text) where
  -- A run that has won a slot finds its reservation in the log, after any further steps of any runs:
  -- `ownedBy` returns the reservation whose claim is the event that the run has planned.
  pub owned_by-Steps :
      (r s : Repo) (rs : List Reservation) (slot : ℕ) (sha : Sha)
      → log_of codec repository family r ≡ read_ok rs
      → (c : Claiming codec repository family r slot sha)
      → Steps codec repository family (add_claim slot sha r) s
      → (qs : List Reservation) × (mine : Reservation) × (log_of codec repository family s
          ≡ read_ok qs)
        × (owned_by c.caller qs ≡ some mine)
        × (mine.claim.event ≡ c.event)
  unfolding owned_by is_owned_by bare claimed claim_event
  owned_by-Steps r s rs slot sha h c steps =
      let (now, n, won) =
        add_claim-IsReadable codec repository family r slot sha
          (log_of-IsReadable codec repository family r rs h) c in
      let (ok, later) =
        Steps-IsReadable codec repository family (add_claim slot sha r) s steps now in
      let (qs, h') = IsReadable-log_of codec repository family s ok in
      let (whole, log, _) = seen_lem codec repository family s s qs (Later-refl s) h' in
      let (new, split) =
        ReadsTo-prefix codec repository family s _ _ (map bare now.reservations) (map bare qs)
          (IsReadable-Later codec repository family (add_claim slot sha r) s now later) whole
          later.grown in
      let there : Memᴰ (bare (claimed codec repository family r slot sha c n)) (map bare qs) =
        subst (Memᴰ (bare (claimed codec repository family r slot sha c n))) (sym split)
          (Memᴰ.append_right new (Memᴰ.map bare won)) in
      let (q, m, e) = Memᴰ-bare _ qs there in
      let (is, _, _) =
        plan_claim_lem codec c.is_outside c.is_taken c.caller c.base c.before c.branch c.event
          c.message c.planned in
      let owns : is_owned_by c.caller q ≡ true =
        ap (is_owned_by c.caller) (sym e)
        ∙ rw (==_refl c.caller.issue_number, text_eq_refl c.caller.idempotency_hash) refl in
      let (mine, first, m', owns') = find-Memᴰ (is_owned_by c.caller) q qs m owns in
      let same = owner_unique c.caller qs mine q log m' m owns' owns in
      (qs, mine, h', first, ap (λ x. x.claim.event) same ∙ ap (λ x. x.claim.event) (sym e) ∙ sym is)
