-- ===== src/Ledger/Race/Invariant.antt =====
-- What stays true of a log that several runs of mcp/ground-control/lib/release-identity.js extend.
use ground_control.Prelude.{
  zero, arith, ℕ, Option, List, length, ◌≡◌, ◌≤◌, All, ◌++◌, map, sym, [], suc, true, subst, ◌∷◌,
  ap, ◌∙◌, Bool-cases, leb, inl, refl, inr,
}
use ground_control.Ledger.Fold.{Reservation, has_good_shape, slot_of, read_ok, guard}
use ground_control.Ledger.Race.{Repo, log_of, Later}
use ground_control.Ledger.Event.{Codec, Sha}
use ground_control.Prelude.Text.{Text}
use ground_control.Ledger.Log.{
  no_slot, IsFold, read_inj, bind-read_ok, bind_at, IsFold-fold_slots, fold_slots-IsFold, IsLog,
  next_slot_read, guard-read_ok,
}
use ground_control.Ledger.Bare.{
  no_outcomes, IsSettled, IsFold-join, bare, IsFold-bare, IsFold-IsSettled,
}
use ground_control.Ledger.Validity.{IsFold-IsLog}
use ground_control.Ledger.Race.Slots.{has_slots_lem, shape_lem}

abbrev pub claim_at : Repo → ℕ → Option Sha
claim_at r n = slot_of n r.refs.claims

abbrev pub outcome_at : Repo → ℕ → Option Sha
outcome_at r n = slot_of n r.refs.outcomes

module _ (codec : Codec) (repository family : Text) where
  -- The claims of a state can be read up to slot `n`.
  abbrev pub ReadsTo : Repo → ℕ → List Reservation → Type 0
  ReadsTo r n bs = IsFold codec repository family r.commits (claim_at r) no_outcomes n bs

  pub record IsReadable (r : Repo) : Type 0 where
    pub reservations : List Reservation
    pub claims_read : ReadsTo r (length r.refs.claims) reservations
    pub settled : All (IsSettled codec repository family r.commits (outcome_at r)) reservations
    pub good_shape : has_good_shape r.refs ≡ true

  pub log_of-IsReadable :
      (r : Repo) (rs : List Reservation)
      → log_of codec repository family r ≡ read_ok rs
      → IsReadable r
  unfolding log_of
  log_of-IsReadable r rs h =
      let (u, e, h₁) = bind-read_ok (guard (has_good_shape r.refs)) _ h in
      let read =
        fold_slots-IsFold codec repository family r.commits (claim_at r) (outcome_at r) _ rs h₁ in
      record {
        reservations = map bare rs;
        claims_read =
            IsFold-bare codec repository family r.commits r.commits (λ s c k. k) (claim_at r)
              (claim_at r) (outcome_at r) (λ k l u'. refl) read;
        settled =
            IsFold-IsSettled codec repository family r.commits (claim_at r) (outcome_at r) read;
        good_shape = guard-read_ok _ e;
      }

  pub IsReadable-log_of :
      (r : Repo)
      → IsReadable r
      → (rs : List Reservation) × (log_of codec repository family r ≡ read_ok rs)
  unfolding log_of
  IsReadable-log_of r ok =
      let (rs, d, same) =
        IsFold-join codec repository family r.commits (claim_at r) (outcome_at r) ok.claims_read
          ok.settled in
      (
        rs,
        bind_at _ _ (ap guard ok.good_shape)
            ∙ IsFold-fold_slots codec repository family r.commits (claim_at r) (outcome_at r) d,
      )

  -- What a run has read of the log is still there, whatever has happened since.
  pub seen_lem :
      (seen r : Repo) (before : List Reservation)
      → Later seen r
      → log_of codec repository family seen ≡ read_ok before
      → ReadsTo r (length seen.refs.claims) (map bare before)
        × IsLog before
        × (length before ≡ length seen.refs.claims)
  unfolding log_of has_good_shape
  seen_lem seen r before later h =
      let (u, e, h₁) = bind-read_ok (guard (has_good_shape seen.refs)) _ h in
      let read =
        fold_slots-IsFold codec repository family seen.commits (claim_at seen) (outcome_at seen) _
          before h₁ in
      let (log, len) = IsFold-IsLog codec repository family seen.commits _ _ read in
      let shape = guard-read_ok _ e in
      let slots = (shape_lem seen.refs shape).1 in
      let agree : (k : ℕ) → 1 ≤ k → k ≤ length seen.refs.claims → claim_at r k ≡ claim_at seen k =
        λ k l u'. let (v, at) = has_slots_lem _ _ slots k l u' in later.kept k v at ∙ sym at in
      (
        IsFold-bare codec repository family seen.commits r.commits later.commits_kept
            (claim_at seen) (claim_at r) (outcome_at seen) agree read,
        log,
        len,
      )

  pub IsReadable-Later :
      (r s : Repo) (ok : IsReadable r)
      → Later r s
      → ReadsTo s (length r.refs.claims) (map bare ok.reservations)
  IsReadable-Later r s ok later =
      let (_, slots, _) = shape_lem r.refs ok.good_shape in
      let agree : (k : ℕ) → 1 ≤ k → k ≤ length r.refs.claims → claim_at s k ≡ claim_at r k =
        λ k l u'. let (v, at) = has_slots_lem _ _ slots k l u' in later.kept k v at ∙ sym at in
      IsFold-bare codec repository family r.commits s.commits later.commits_kept (claim_at r)
        (claim_at s) no_outcomes agree ok.claims_read

  pub ReadsTo-unique :
      (r : Repo) (n : ℕ) (qs bs : List Reservation) → ReadsTo r n qs → ReadsTo r n bs → qs ≡ bs
  ReadsTo-unique r n qs bs a b = read_inj qs bs (
      sym (IsFold-fold_slots codec repository family r.commits (claim_at r) no_outcomes a)
      ∙ IsFold-fold_slots codec repository family r.commits (claim_at r) no_outcomes b)

  ReadsTo-same :
      (r : Repo) (n m : ℕ) (qs bs : List Reservation)
      → n ≡ m
      → ReadsTo r n qs
      → ReadsTo r m bs
      → (new : List Reservation) × (bs ≡ new ++ qs)
  ReadsTo-same r n m qs bs e a b =
      ([], sym (ReadsTo-unique r m qs bs (subst (λ k. ReadsTo r k qs) e a) b))

  -- A longer reading adds reservations to a shorter one.
  pub ReadsTo-prefix :
      (r : Repo) (n m : ℕ) (qs bs : List Reservation)
      → ReadsTo r n qs
      → ReadsTo r m bs
      → n ≤ m
      → (new : List Reservation) × (bs ≡ new ++ qs)
  ReadsTo-prefix r n zero qs [] a no_slot le =
      ReadsTo-same r n 0 qs [] (omega (arith, le)) a no_slot
  ReadsTo-prefix r n zero qs (b ∷ bs) a x le = elim x [ ]
  ReadsTo-prefix r n (suc m) qs [] a x le = elim x [ ]
  ReadsTo-prefix r n (suc m) qs (b ∷ bs) a (next_slot_read d s single) le =
      elim (Bool-cases (leb n m)) [
        | inl below ↦
            let (new, e) = ReadsTo-prefix r n m qs bs a d (ground (arith, below)) in
            (b ∷ new, ap (λ l. b ∷ l) e)
        | inr top ↦
            ReadsTo-same r n (suc m) qs (b ∷ bs) (ground (arith, top, le)) a
              (next_slot_read d s single)
      ]
