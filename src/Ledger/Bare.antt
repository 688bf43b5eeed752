-- ===== src/Ledger/Bare.antt =====
-- The fold of mcp/ground-control/lib/release-identity-ledger.js with the outcomes left out: the
-- claims of a log decide what its outcomes may be, and not the other way round.
use ground_control.Prelude.{
  arith, ℕ, List, none, Option, map, length, Bool, ◌≡◌, ◌∷◌, any, sym, some, ◌≤◌, All, ap, ◌∙◌, [],
  suc, refl, false,
}
use ground_control.Ledger.Fold.{
  Commit, Reservation, last_claim, highest, is_linked, same_identity, EventCommit, read_commit,
  read_event, read_outcome, read_ok, event_at, accept_at, is_event_of, found,
}
use ground_control.Ledger.Event.{Sha, Codec, Claim}
use ground_control.Prelude.Text.{Text}
use ground_control.Ledger.Log.{IsFold, next_slot_read, no_slot, bind-read_ok, bind_at, IsSlot}

-- The reservation without its outcome.
unfoldable pub bare : Reservation → Reservation
bare r = record r { outcome = none }

abbrev pub no_outcomes : ℕ → Option Sha
no_outcomes n = none

pub last_claim-map : (rs : List Reservation) → last_claim (map bare rs) ≡ last_claim rs
unfolding last_claim bare
last_claim-map [] = refl
last_claim-map (r ∷ rs) = refl

pub highest-map : (rs : List Reservation) → highest (map bare rs) ≡ highest rs
unfolding highest bare
highest-map [] = refl
highest-map (r ∷ rs) = refl

pub length-map : (rs : List Reservation) → length (map bare rs) ≡ length rs
length-map [] = refl
length-map (r ∷ rs) = ap suc (length-map rs)

pub any-map :
    (p : Reservation → Bool)
    → ((r : Reservation) → p (bare r) ≡ p r)
    → (rs : List Reservation) → any p (map bare rs) ≡ any p rs
any-map p same [] = refl
any-map p same (r ∷ rs) = rw (same r, any-map p same rs) refl

pub bare-bare : (rs : List Reservation) → map bare (map bare rs) ≡ map bare rs
unfolding bare
bare-bare [] = refl
bare-bare (r ∷ rs) = ap (λ l. bare r ∷ l) (bare-bare rs)

pub is_linked-map :
    (claim : EventCommit) (terms : Claim) (base : Commit) (rs qs : List Reservation)
    → map bare rs ≡ map bare qs
    → is_linked claim terms base rs ≡ is_linked claim terms base qs
unfolding is_linked
is_linked-map claim terms base rs qs same =
    let last : last_claim rs ≡ last_claim qs =
      sym (last_claim-map rs) ∙ ap last_claim same ∙ last_claim-map qs in
    let top : highest rs ≡ highest qs = sym (highest-map rs) ∙ ap highest same ∙ highest-map qs in
    rw (last, top) refl

pub any-same_identity :
    (r : Reservation) (rs qs : List Reservation)
    → map bare rs ≡ map bare qs
    → any (same_identity r) rs ≡ any (same_identity r) qs
unfolding same_identity bare
any-same_identity r rs qs same =
    sym (any-map (same_identity r) (λ q. refl) rs)
    ∙ ap (any (same_identity r)) same
    ∙ any-map (same_identity r) (λ q. refl) qs

-- Every commit of the first store is in the second, unchanged.
abbrev pub Extends : (f g : Sha → Option Commit) → Type 0
Extends f g = (s : Sha) (c : Commit) → f s ≡ some c → g s ≡ some c

pub found-read_ok : (o : Option Commit) (c : Commit) → found o ≡ read_ok c → o ≡ some c
unfolding found
found-read_ok none c h = cc
found-read_ok (some k) c h = cc

module _ (codec : Codec) (repository family : Text) where
  read_commit-Extends :
      (f g : Sha → Option Commit)
      → Extends f g
      → (sha : Option Sha) (c : Commit) → read_commit codec repository family f sha ≡ read_ok c
      → read_commit codec repository family g sha ≡ read_ok c
  unfolding read_commit
  read_commit-Extends f g ext none c h = cc
  read_commit-Extends f g ext (some sha) c h = ap found (ext sha c (found-read_ok (f sha) c h))

  pub read_event-Extends :
      (f g : Sha → Option Commit)
      → Extends f g
      → (slot : ℕ) (sha : Option Sha) (e : EventCommit)
      → read_event codec repository family f slot sha ≡ read_ok e
      → read_event codec repository family g slot sha ≡ read_ok e
  unfolding read_event event_at accept_at is_event_of
  read_event-Extends f g ext slot sha e h =
      let (c, e₁, h₁) = bind-read_ok (read_commit codec repository family f sha) _ h in
      bind_at _ c (read_commit-Extends f g ext sha c e₁) ∙ h₁

  -- The reservation's outcome is readable.
  abbrev pub IsSettled : (Sha → Option Commit) → (ℕ → Option Sha) → Reservation → Type 0
  IsSettled f outcome b =
      (o : Option EventCommit) × (read_outcome codec repository family f b.slot b.claim b.terms
          (outcome b.slot)
        ≡ read_ok o)

  -- The claims of a fold, with a later store of commits.
  pub IsFold-bare :
      (f g : Sha → Option Commit)
      → Extends f g
      → (claim later outcome : ℕ → Option Sha) {n : ℕ} {rs : List Reservation}
      → ((k : ℕ) → 1 ≤ k → k ≤ n → later k ≡ claim k)
      → IsFold codec repository family f claim outcome n rs
      → IsFold codec repository family g later no_outcomes n (map bare rs)
  unfolding bare read_outcome same_identity
  IsFold-bare f g ext claim later outcome agree no_slot = no_slot
  IsFold-bare f g ext claim later outcome agree (next_slot_read {n} {before} {r} d s single) =
      next_slot_read
        (IsFold-bare f g ext claim later outcome (λ k l h. agree k l (omega (arith, h))) d)
        (record {
          at_slot = s.at_slot;
          same_sequence = s.same_sequence;
          is_read =
              ap (read_event codec repository family g (suc n))
                (agree (suc n) (omega arith) (omega arith))
              ∙ read_event-Extends f g ext _ _ _ s.is_read;
          reserves = s.reserves;
          base = s.base;
          base_read = read_commit-Extends f g ext (some r.terms.base_revision) _ s.base_read;
          linked = is_linked-map _ _ _ (map bare before) before (bare-bare before) ∙ s.linked;
          outcome_read = refl;
        })
        (any-same_identity (bare r) (map bare before) before (bare-bare before) ∙ single)

  -- What a fold reads of the outcomes.
  pub IsFold-IsSettled :
      (f : Sha → Option Commit) (claim outcome : ℕ → Option Sha) {n : ℕ} {rs : List Reservation}
      → IsFold codec repository family f claim outcome n rs
      → All (IsSettled f outcome) (map bare rs)
  unfolding bare
  IsFold-IsSettled f claim outcome no_slot = tt
  IsFold-IsSettled f claim outcome (next_slot_read {n} {before} {r} d s single) =
      ((r.outcome, rw s.at_slot s.outcome_read), IsFold-IsSettled f claim outcome d)

  read_outcome-Extends :
      (f g : Sha → Option Commit)
      → Extends f g
      → (slot : ℕ) (claim : EventCommit) (terms : Claim) (sha : Option Sha) (o : Option EventCommit)
      → read_outcome codec repository family f slot claim terms sha ≡ read_ok o
      → read_outcome codec repository family g slot claim terms sha ≡ read_ok o
  unfolding read_outcome
  read_outcome-Extends f g ext slot claim terms none o h = h
  read_outcome-Extends f g ext slot claim terms (some sha) o h =
      let (e, e₁, h₁) = bind-read_ok (read_event codec repository family f slot (some sha)) _ h in
      bind_at _ e (read_event-Extends f g ext slot (some sha) e e₁) ∙ h₁

  pub IsSettled-Extends :
      (f g : Sha → Option Commit)
      → Extends f g
      → (outcome : ℕ → Option Sha) (bs : List Reservation) → All (IsSettled f outcome) bs
      → All (IsSettled g outcome) bs
  IsSettled-Extends f g ext outcome [] h = tt
  IsSettled-Extends f g ext outcome (b ∷ bs) h = (
    (h.0.0, read_outcome-Extends f g ext b.slot b.claim b.terms _ _ h.0.1),
    IsSettled-Extends f g ext outcome bs h.1,
  )

  pub IsSettled-map :
      (f : Sha → Option Commit) (outcome : ℕ → Option Sha) (bs : List Reservation)
      → All (IsSettled f outcome) bs
      → All (IsSettled f outcome) (map bare bs)
  unfolding bare
  IsSettled-map f outcome [] h = tt
  IsSettled-map f outcome (b ∷ bs) h = (h.0, IsSettled-map f outcome bs h.1)

  -- A fold of the claims, and outcomes that can be read, make a fold.
  pub IsFold-join :
      (f : Sha → Option Commit) (claim outcome : ℕ → Option Sha) {n : ℕ} {bs : List Reservation}
      → IsFold codec repository family f claim no_outcomes n bs
      → All (IsSettled f outcome) bs
      → (rs : List Reservation) × IsFold codec repository family f claim outcome n rs
        × (map bare rs ≡ map bare bs)
  unfolding bare same_identity
  IsFold-join f claim outcome no_slot all = ([], no_slot, refl)
  IsFold-join f claim outcome (next_slot_read {n} {before} {r} d s single) all =
      let (rs, d', same) = IsFold-join f claim outcome d all.1 in
      let (o, read) = all.0 in
      let r' : Reservation = record r { outcome = o } in
      let read' : IsSlot codec repository family f (suc n) (claim (suc n)) (outcome (suc n)) rs r' =
        record {
          at_slot = s.at_slot;
          same_sequence = s.same_sequence;
          is_read = s.is_read;
          reserves = s.reserves;
          base = s.base;
          base_read = s.base_read;
          linked = is_linked-map _ _ _ rs before same ∙ s.linked;
          outcome_read = rw (sym s.at_slot) read;
        } in
      let single' : any (same_identity r') rs ≡ false =
        any-same_identity r' rs before same ∙ single in
      (r' ∷ rs, next_slot_read d' read' single', ap (λ l. bare r ∷ l) same)
