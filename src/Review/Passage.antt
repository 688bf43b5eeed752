-- ===== src/Review/Passage.antt =====
-- Which reviews the gates of mcp/ground-control/lib/codex-review-cap.js let run.
use ground_control.Review.Gate.{
  unreadable, GateResult, check_issues, is_reason, gate_result, phase_refusal,
  enforce_postpush_review_gate, prepush_at, enforce_prepush_review_cap, has_plan, PostpushInput,
  PrepushInput, resolved_branch, ownership, configured, effective_issue, config_invalid,
  prepush_capped, CapReading,
}
use ground_control.Prelude.{
  inr, inl, Bool, Option, ℕ, List, if◌then◌else◌, is_some, ◌≡◌, true, some, any, not, false, none,
  ◌∷◌, ltb, arith, ◌↔◌, length, ◌<◌, Option-cases, [], ◌||◌, ◌⊎◌, inl, refl, inr, ◌&&◌, suc, ◌∙◌,
  ap,
}
use ground_control.Review.Budget.{
  Request, is_granted, evaluate, is_authorized, granted_lem, postpush_review,
}
use ground_control.Prelude.Text.{Text}
use ground_control.Review.Cap.{
  throws, Decision, granted, evaluate_prepush_cap, refused, evaluate_review_cap,
}
use ground_control.Review.Markers.{Marker, count_markers, post_marker, post_marker_lem}

unfoldable pub is_owned : GateResult → Bool
is_owned (ownership o) = true
is_owned _ = false

-- The cycle that a run is anchored to.
unfoldable pub cycle_of : GateResult → Option ℕ
cycle_of (ownership o) = some o.cycle_number
cycle_of _ = none

check_issues_lem :
    (phases : ℕ → List Text) (ns : List ℕ)
    → (check_issues phases ns).0 ≡ any (λ n. has_plan (phases n)) ns
unfolding check_issues
check_issues_lem phases [] = refl
check_issues_lem phases (n ∷ ns) = ground (arith, check_issues_lem phases ns)

-- The phase gate lets a pull request through.
unfoldable pub is_planned : PostpushInput → Bool
unfolding is_reason has_plan
is_planned i =
    if i.override_phase_gate
    then is_reason i.override_phase_reason
    else not (ltb 0 (length i.closing_issues)) || any (λ n. has_plan (i.phases n)) i.closing_issues

is_granted_lem :
    (key : ℕ) (b : Option Text) (d : Decision) → is_owned (gate_result key b d) ≡ is_granted d
unfolding gate_result is_owned is_granted
is_granted_lem key b (granted n c r a) = refl
is_granted_lem key b (refused e p c a) = refl
is_granted_lem key b throws = refl

phase_refusal-is_planned : (i : PostpushInput) → is_some (phase_refusal i) ≡ not (is_planned i)
unfolding phase_refusal is_planned
phase_refusal-is_planned i = ground (arith, check_issues_lem i.phases i.closing_issues)

unfoldable pub request_of : PostpushInput → Request
request_of i = record { override_cap = i.override_cap; override_reason = i.override_reason }

enforce_lem :
    (i : PostpushInput)
    → is_owned (enforce_postpush_review_gate i)
      ≡ (is_planned i && is_granted (evaluate postpush_review i.prior_count 3 (request_of i)))
unfolding evaluate request_of is_owned enforce_postpush_review_gate is_planned
enforce_lem i = elim (Option-cases (phase_refusal i)) [
  | inl passes ↦
      rw (enforce_postpush_review_gate, passes)
        (ground (
          arith,
          passes,
          phase_refusal-is_planned i,
          is_granted_lem i.pr_number none
              (evaluate_review_cap i.prior_count 3 i.override_cap i.override_reason),
        ))
  | inr (r, refuses) ↦
      rw (enforce_postpush_review_gate, refuses)
        (ground (arith, refuses, phase_refusal-is_planned i))
]

-- After the push, with a count of earlier cycles read, a review runs exactly when the plan is there
-- (an issue that the pull request closes has its marker, or it closes none, or the gate is
-- overridden with a reason) and the cap grants a cycle: below three cycles without an override, or
-- with an override that has a reason.
pub postpush_iff :
    (i : PostpushInput) (prior : ℕ)
    → i.prior_count ≡ some prior
    → (is_owned (enforce_postpush_review_gate i) ≡ true) ↔ (
        (is_planned i ≡ true)
        × (((i.override_cap ≡ false) × (prior < 3)) ⊎ (is_authorized (request_of i) ≡ true)))
unfolding evaluate request_of
postpush_iff i prior h =
    ground (arith, h, enforce_lem i, granted_lem postpush_review prior 3 (request_of i))

-- The cycle that a run below the cap is anchored to.
abbrev pub next_cycle : (prior cap : ℕ) → Option ℕ
next_cycle prior cap = if ltb prior cap then some (suc prior) else none

capped_lem :
    (i : PrepushInput) (b : Text) (issue prior cap : ℕ) (reading : CapReading)
    → reading ≡ configured cap
    → i.override_cap ≡ false
    → cycle_of (prepush_capped i b issue prior reading) ≡ next_cycle prior cap
unfolding prepush_capped cycle_of gate_result evaluate_prepush_cap
capped_lem i b issue prior cap (configured limit) e plain = ground (arith, e, plain)
capped_lem i b issue prior cap config_invalid e plain = cc
capped_lem i b issue prior cap unreadable e plain = cc

prepush_lem :
    (i : PrepushInput) (b : Text) (issue cap : ℕ) (bodies : List (List Marker))
    → is_some (resolved_branch (some b)) ≡ true
    → i.branch ≡ some b
    → effective_issue i.issue_number b ≡ some issue
    → i.cap ≡ configured cap
    → i.override_cap ≡ false
    → i.thread issue ≡ some bodies
    → cycle_of (enforce_prepush_review_cap i) ≡ next_cycle (count_markers bodies issue) cap
unfolding resolved_branch prepush_at cycle_of enforce_prepush_review_cap
prepush_lem i [] issue cap bodies named on e limit plain read = cc
prepush_lem i (c ∷ s) issue cap bodies named on e limit plain read =
    rw (enforce_prepush_review_cap, on, e, prepush_at, read)
      (capped_lem i (c ∷ s) issue (count_markers bodies issue) cap i.cap limit plain)

-- Renaming the branch does not reset the cycles before the push. With a cap that is read and no
-- override, let two branch names lead to the same issue, on whose thread the comments are read. Then
-- a run on the first branch is anchored to the cycle after the markers of the issue, if these are
-- fewer than the cap, and to none otherwise. Once the marker of such a run is posted, under its
-- branch, a run on the second branch is anchored to the cycle after that one, if it is still below
-- the cap, and to none otherwise.
pub rename_branch :
    (i : PrepushInput) (b b' : Text) (issue cap : ℕ) (bodies : List (List Marker))
    → is_some (resolved_branch (some b)) ≡ true
    → is_some (resolved_branch (some b')) ≡ true
    → effective_issue i.issue_number b ≡ some issue
    → effective_issue i.issue_number b' ≡ some issue
    → i.cap ≡ configured cap
    → i.override_cap ≡ false
    → i.thread issue ≡ some bodies
    → let prior = count_markers bodies issue in
      (cycle_of (enforce_prepush_review_cap (record i { branch = some b })) ≡ next_cycle prior cap)
      × (cycle_of (
            enforce_prepush_review_cap
              (record i { branch = some b'; thread = post_marker i.thread issue b (suc prior) }))
          ≡ next_cycle (suc prior) cap)
rename_branch i b b' issue cap bodies named named' e e' limit plain read =
    let prior = count_markers bodies issue in
    let (later, reads, counts) = post_marker_lem i.thread issue b (suc prior) bodies read in
    (
      prepush_lem (record i { branch = some b }) b issue cap bodies named refl e limit plain read,
      prepush_lem (record i { branch = some b'; thread = post_marker i.thread issue b (suc prior) })
            b' issue cap later named' refl e' limit plain reads
          ∙ ap (λ n. next_cycle n cap) counts,
    )
