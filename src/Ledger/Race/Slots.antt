-- ===== src/Ledger/Race/Slots.antt =====
-- The maps of slots in mcp/ground-control/lib/release-identity-ledger.js: contiguous claims, and what
-- a further entry leaves as it is.
use ground_control.Prelude.{
  arith, Option, ℕ, is_some, ◌≡◌, all, ◌∷◌, ◌≢◌, true, some, ◌≤◌, suc, none, zero, [], refl, false,
  Bool-cases, leb, inl, inr, ap, ◌∙◌, ◌==◌, sym, length, ◌&&◌,
}
use ground_control.Ledger.Fold.{slot_of, has_slots, Slots, has_good_shape, Classified}
use ground_control.Ledger.Event.{Sha, release_ledger_slots_max}
use ground_control.Ledger.Validity.{and-true}

pub slot_of-head : (k : ℕ) (v : Sha) (m : Slots) → slot_of k ((k, v) ∷ m) ≡ some v
unfolding slot_of
slot_of-head k v m = ground arith

pub slot_of-tail : (k j : ℕ) (v : Sha) (m : Slots) → k ≢ j → slot_of k ((j, v) ∷ m) ≡ slot_of k m
unfolding slot_of
slot_of-tail k j v m apart = ground (arith, apart)

pub none≢some : {A : Type 0} (a : A) → none ≢ some a
none≢some a h = ground (arith, h)

pub true≢false : true ≢ false
true≢false h = ground (arith, h)

is_some→some : {A : Type 0} (o : Option A) → is_some o ≡ true → (a : A) × (o ≡ some a)
is_some→some none h = absurd (ground (arith, h))
is_some→some (some a) h = (a, refl)

-- Contiguous claims have an object at each slot.
pub has_slots_lem :
    (n : ℕ) (m : Slots)
    → has_slots n m ≡ true
    → (k : ℕ) → 1 ≤ k
    → k ≤ n
    → (v : Sha) × (slot_of k m ≡ some v)
unfolding has_slots
has_slots_lem zero m h k l u = absurd (omega (arith, l, u))
has_slots_lem (suc n) m h k l u =
    let (below, top) = and-true (has_slots n m) _ h in
    elim (Bool-cases (leb k n)) [
      | inl le ↦ has_slots_lem n m below k l (ground (arith, le))
      | inr gt ↦
          let last : k ≡ suc n = ground (arith, gt, u) in
          is_some→some (slot_of k m) (ap (λ j. is_some (slot_of j m)) last ∙ top)
    ]

pub has_slots-kept :
    (n : ℕ) (m m' : Slots)
    → ((k : ℕ) (v : Sha) → slot_of k m ≡ some v → slot_of k m' ≡ some v)
    → has_slots n m ≡ true
    → has_slots n m' ≡ true
unfolding has_slots
has_slots-kept zero m m' kept h = refl
has_slots-kept (suc n) m m' kept h =
    let (below, top) = and-true (has_slots n m) _ h in
    let (v, at) = is_some→some (slot_of (suc n) m) top in
    rw (has_slots-kept n m m' kept below, kept (suc n) v at) refl

pub owned-kept :
    (outcomes m m' : Slots)
    → ((k : ℕ) (v : Sha) → slot_of k m ≡ some v → slot_of k m' ≡ some v)
    → all (λ o. is_some (slot_of o.0 m)) outcomes ≡ true
    → all (λ o. is_some (slot_of o.0 m')) outcomes ≡ true
owned-kept [] m m' kept h = refl
owned-kept (o ∷ os) m m' kept h =
    let (here, there) = and-true (is_some (slot_of o.0 m)) _ h in
    let (v, at) = is_some→some (slot_of o.0 m) here in
    rw (kept o.0 v at, owned-kept os m m' kept there) refl

-- No outcome stands at a slot without a claim.
pub no_orphan :
    (outcomes m : Slots) (k : ℕ)
    → all (λ o. is_some (slot_of o.0 m)) outcomes ≡ true
    → slot_of k m ≡ none
    → slot_of k outcomes ≡ none
unfolding slot_of
no_orphan [] m k h free = refl
no_orphan ((j, v) ∷ os) m k h free =
    let (here, there) = and-true (is_some (slot_of j m)) _ h in
    elim (Bool-cases (j == k)) [
      | inl same ↦
          let at : j ≡ k = ground (arith, same) in
          absurd (true≢false (sym here ∙ ap (λ i. is_some (slot_of i m)) at ∙ ap is_some free))
      | inr apart ↦ slot_of-tail k j v os (ground (arith, apart)) ∙ no_orphan os m k there free
    ]

pub shape_lem :
    (c : Classified)
    → has_good_shape c ≡ true
    → (length c.claims ≤ release_ledger_slots_max)
      × (has_slots (length c.claims) c.claims ≡ true)
      × (all (λ o. is_some (slot_of o.0 c.claims)) c.outcomes ≡ true)
unfolding has_good_shape
shape_lem c h =
    let (sound, owned) =
      and-true
        (leb (length c.claims) release_ledger_slots_max && has_slots (length c.claims) c.claims)
        (all (λ o. is_some (slot_of o.0 c.claims)) c.outcomes) h in
    let (small, slots) = and-true (leb (length c.claims) release_ledger_slots_max) _ sound in
    (ground (arith, small), slots, owned)

pub has_good_shape_lem :
    (c : Classified)
    → length c.claims ≤ release_ledger_slots_max
    → has_slots (length c.claims) c.claims ≡ true
    → all (λ o. is_some (slot_of o.0 c.claims)) c.outcomes ≡ true
    → has_good_shape c ≡ true
unfolding has_good_shape
has_good_shape_lem c small slots owned =
    let fits : leb (length c.claims) release_ledger_slots_max ≡ true = ground (arith, small) in
    rw (fits, slots, owned) refl
