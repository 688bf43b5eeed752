-- ===== src/Review/Budget.antt =====
-- How many cycles the three caps let through (mcp/ground-control/lib/api-requirements.js,
-- mcp/ground-control/lib/repo-context-2.js, mcp/ground-control/lib/codex-verify-cap.js).
use Prim.Native.Nat.{max}
use ground_control.Prelude.{
  ℕ, suc, ◌+◌, ◌≤◌, ◌<◌, ◌≡◌, ◌⊎◌, Bool, true, false, ◌&&◌, Option, some, List, [], ◌∷◌, count,
  is_some, arith, ◌↔◌, if◌then◌else◌, any, inl, none, refl, not, inr, ◌∙◌, ap, ◌||◌, sym,
}
use ground_control.Prelude.Text.{Text, trim_cons, trim_end, trim_start, is_blank, is_white, trim}
use ground_control.Review.Cap.{
  Decision, granted, evaluate_prepush_cap, evaluate_review_cap, evaluate_verify_cap, authorization,
}
use ground_control.Ledger.Race.Slots.{none≢some}

pub data Gate : Type 0 where
  prepush_review postpush_review finding_verification : Gate

pub record Request : Type 0 where
  pub override_cap : Bool
  pub override_reason : Option Text

-- The evaluator of each gate.
unfoldable pub evaluate : Gate → Option ℕ → ℕ → Request → Decision
unfolding evaluate_prepush_cap evaluate_review_cap evaluate_verify_cap
evaluate prepush_review prior cap q =
    evaluate_prepush_cap prior cap q.override_cap q.override_reason
evaluate postpush_review prior cap q =
    evaluate_review_cap prior cap q.override_cap q.override_reason
evaluate finding_verification prior cap q =
    evaluate_verify_cap prior cap q.override_cap q.override_reason

unfoldable pub is_authorized : Request → Bool
is_authorized q = q.override_cap && is_some (authorization q.override_reason)

unfoldable pub is_granted : Decision → Bool
is_granted (granted _ _ _ _) = true
is_granted _ = false

pub granted_lem :
    (g : Gate) (prior cap : ℕ) (q : Request)
    → (is_granted (evaluate g (some prior) cap q) ≡ true)
      ↔ (((q.override_cap ≡ false) × (prior < cap)) ⊎ (is_authorized q ≡ true))
unfolding evaluate is_granted is_authorized
granted_lem prepush_review prior cap q = ground arith
granted_lem postpush_review prior cap q = ground arith
granted_lem finding_verification prior cap q = ground arith

-- A reason that says something: a text with a code unit that is no white space.
abbrev pub HasReason : Request → Type 0
HasReason q =
    (reason : Text) × (q.override_reason ≡ some reason)
    × (any (λ c. not (is_white c)) reason ≡ true)

unfoldable is_empty : Text → Bool
is_empty [] = true
is_empty (c ∷ s) = false

trim_cons_lem : (c : ℕ) (s : Text) → is_empty (trim_cons c s) ≡ (is_white c && is_empty s)
unfolding trim_cons is_empty
trim_cons_lem c [] = ground arith
trim_cons_lem c (d ∷ s) = ground arith

white_lem : (w x : Bool) → (w && not x) ≡ not (not w || x)
white_lem true x = refl
white_lem false x = refl

trim_end_lem : (s : Text) → is_empty (trim_end s) ≡ not (any (λ c. not (is_white c)) s)
unfolding trim_end is_empty
trim_end_lem [] = refl
trim_end_lem (c ∷ s) =
    trim_cons_lem c (trim_end s)
    ∙ ap (λ b. is_white c && b) (trim_end_lem s)
    ∙ white_lem (is_white c) (any (λ d. not (is_white d)) s)

trim_start_lem :
    (s : Text) → any (λ c. not (is_white c)) (trim_start s) ≡ any (λ c. not (is_white c)) s
unfolding trim_start
trim_start_lem [] = refl
trim_start_lem (c ∷ s) = ground (arith, trim_start_lem s)

empty_lem : (s : Text) → elim s [ [] ↦ true | _ ∷ _ ↦ false ] ≡ is_empty s
unfolding is_empty
empty_lem [] = refl
empty_lem (c ∷ s) = refl

is_blank_lem : (s : Text) → is_blank s ≡ not (any (λ c. not (is_white c)) s)
unfolding is_blank trim
is_blank_lem s =
    empty_lem (trim_end (trim_start s)) ∙ trim_end_lem (trim_start s) ∙ ap not (trim_start_lem s)

authorized_iff :
    (q : Request) (o : Option Text)
    → q.override_reason ≡ o
    → (is_authorized q ≡ true) ↔ ((q.override_cap ≡ true) × HasReason q)
unfolding is_authorized authorization
authorized_iff q none same = (
  (λ h. absurd (ground (arith, same, h))),
  (λ (_, (reason, is, _)). absurd (none≢some reason (sym same ∙ is))),
)
authorized_iff q (some s) same = (
  (λ h. (ground (arith, same, h), (s, same, ground (arith, same, h, is_blank_lem s)))),
  (λ (over, (reason, is, says)). ground (arith, is, over, says, is_blank_lem reason)),
)

-- Each of the three gates grants a cycle in exactly two cases: below the cap without an override,
-- and with an override whose reason has a code unit that is no white space, whatever the count.
pub granted_iff :
    (g : Gate) (prior cap : ℕ) (q : Request)
    → (is_granted (evaluate g (some prior) cap q) ≡ true)
      ↔ (((q.override_cap ≡ false) × (prior < cap)) ⊎ ((q.override_cap ≡ true) × HasReason q))
granted_iff g prior cap q =
    let (there, back) = granted_lem g prior cap q in
    let (uses, gives) = authorized_iff q q.override_reason refl in
    (
      (λ h. elim (there h) [ inl below ↦ inl below | inr over ↦ inr (uses over) ]),
      (λ h. elim h [ inl below ↦ back (inl below) | inr over ↦ back (inr (gives over)) ]),
    )

-- The count of markers after a request: a granted cycle posts one.
unfoldable pub next_count : Gate → ℕ → ℕ → Request → ℕ
next_count g cap prior q = elim (evaluate g (some prior) cap q) [
  | granted next _ _ _ ↦ next
  | _ ↦ prior
]

unfoldable pub run_requests : Gate → ℕ → ℕ → List Request → ℕ
unfolding next_count
run_requests g cap prior [] = prior
run_requests g cap prior (q ∷ qs) = run_requests g cap (next_count g cap prior q) qs

next_count-le :
    (g : Gate) (cap prior : ℕ) (q : Request)
    → next_count g cap prior q ≤ (if is_authorized q then suc prior else max prior cap)
unfolding next_count evaluate is_authorized
next_count-le prepush_review cap prior q = ground arith
next_count-le postpush_review cap prior q = ground arith
next_count-le finding_verification cap prior q = ground arith

-- Over any sequence of requests to a gate, the count of cycles exceeds the cap, or the count at the
-- start where that is larger, by at most the number of requests that carry an authorization.
pub run_requests-le :
    (g : Gate) (cap prior : ℕ) (qs : List Request)
    → run_requests g cap prior qs ≤ max prior cap + count is_authorized qs
unfolding run_requests
run_requests-le g cap prior [] = omega arith
run_requests-le g cap prior (q ∷ qs) =
    ground (arith, next_count-le g cap prior q, run_requests-le g cap (next_count g cap prior q) qs)
