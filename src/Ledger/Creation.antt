-- ===== src/Ledger/Creation.antt =====
-- `createLedgerRef` of mcp/ground-control/lib/release-identity-ledger.js against a GitHub that tells
-- what its references are.
use ground_control.Prelude.{
  refl, arith, ℕ, ◌==◌, Option, ◌≡◌, some, true, ◌≢◌, Bool-cases, none, inl, subst, sym, ◌∙◌, ap,
  inr,
}
use ground_control.Ledger.Calls.{
  created, Api, Created, decide_created, after_create, create_ledger_ref, taken, undecided,
}
use ground_control.Prelude.Text.{Text}
use ground_control.Ledger.Event.{Sha}
use ground_control.Ledger.Race.Outcomes.{if_true, if_false, ==_false}

-- The references that a world has, and what the calls tell of them.
pub record IsTelling {W : Type 0} (api : Api W) (ref_at : W → Text → Option Sha) : Type 0 where
  pub creates :
      (ref : Text) (sha : Sha) (w w' : W) (u : Unit {0})
      → api.create_ref ref sha w ≡ (w', some u)
      → ref_at w' ref ≡ some sha
  pub reads :
      (ref : Text) (w w' : W) (v : Option Sha)
      → api.read_ref ref w ≡ (w', some v)
      → ref_at w' ref ≡ v

-- What a result of a creation says of the reference.
unfoldable pub Says : Created → Sha → Option Sha → Type 0
Says created sha now = now ≡ some sha
Says taken sha now = (other : Sha) × (now ≡ some other) × (other ≢ sha)
Says undecided sha now = Unit

eq_lem : (m n : ℕ) → (m == n) ≡ true → m ≡ n
eq_lem m n h = ground (arith, h)

decide_created_lem :
    (sha : Sha) (current : Option (Option Sha)) (now : Option Sha)
    → ((v : Option Sha) → current ≡ some v → now ≡ v)
    → Says (decide_created sha current) sha now
unfolding decide_created Says
decide_created_lem sha none now tells = tt
decide_created_lem sha (some none) now tells = tt
decide_created_lem sha (some (some current)) now tells = elim (Bool-cases (current == sha)) [
  | inl same ↦
      subst (λ c. Says c sha now) (sym (if_true (current == sha) created taken same))
        (tells (some current) refl ∙ ap some (eq_lem current sha same))
  | inr other ↦
      subst (λ c. Says c sha now) (sym (if_false (current == sha) created taken other))
        (current, tells (some current) refl, ==_false current sha other)
]

module _ {W : Type 0} (api : Api W) (ref_at : W → Text → Option Sha)
    (tells : IsTelling api ref_at) where
  after_create_lem :
      (ref : Text) (sha : Sha) (w : W) (x : W × Option (Unit {0}))
      → api.create_ref ref sha w ≡ x
      → Says (after_create api ref sha x).1 sha (ref_at (after_create api ref sha x).0 ref)
  unfolding after_create Says
  after_create_lem ref sha w (v, some u) e = tells.creates ref sha w v u e
  after_create_lem ref sha w (v, none) e =
      decide_created_lem sha (api.read_ref ref v).1 (ref_at (api.read_ref ref v).0 ref)
        (λ c e'. tells.reads ref v (api.read_ref ref v).0 c (λ i. ((api.read_ref ref v).0, e' i)))

  -- A creation that is told as created has left the reference at the object, also where the call threw
  -- after it took effect; one that is told as taken has left another object there. Where a failed call
  -- cannot be read back it is undecided, and nothing is said.
  pub create_ledger_ref-Says :
      (ref : Text) (sha : Sha) (w : W)
      → Says
          (create_ledger_ref api ref sha w).1
          sha
          (ref_at (create_ledger_ref api ref sha w).0 ref)
  unfolding create_ledger_ref
  create_ledger_ref-Says ref sha w = after_create_lem ref sha w (api.create_ref ref sha w) refl
