-- ===== src/Dependency/Run.antt =====
-- `runIssueDependency` of mcp/ground-control/lib/issue-dependency.js.
use ground_control.Prelude.{ℕ, Bool, true, Option, none, some, List, if◌then◌else◌}
use ground_control.Dependency.Issue.{
  Action, repo_mismatch, repo_not_authorized, blocking, blocked, Issue, View, views,
}
use ground_control.Dependency.Tool.{
  Api, Result, ok, refuse, Input, validate_input, entries_of, issue_of, Mutation, run_mutation,
}
use ground_control.Prelude.Text.{Text, text_eq}

pub data Reply : Type 0 where
  dependencies_of : (blocked_by blocking : List View) → Reply
  mutated : Mutation → Reply

-- The number that a validated input holds.
unfoldable pub number_of : Option ℕ → ℕ
number_of none = 0
number_of (some n) = n

unfoldable pub reply_of : Result Mutation → Result Reply
reply_of (ok m) = ok (mutated m)
reply_of (refuse e) = refuse e

module _ (api : Api) (to_lower : Text → Text) (slug_key : Text) where
  open api use {World, read_issue, list_blocked_by, list_blocking}

  unfoldable pub read_second : ℕ → List Issue → World → World × Result Reply
  unfolding entries_of
  read_second number blocked_by w =
      let (w₁, listed) = list_blocking number w in
      elim (entries_of listed) [
        | refuse e ↦ (w₁, refuse e)
        | ok is ↦ (
          w₁,
          ok (dependencies_of (views to_lower slug_key blocked_by) (views to_lower slug_key is)),
        )
      ]

  unfoldable pub read_both : ℕ → World → World × Result Reply
  unfolding entries_of read_second
  read_both number w =
      let (w₁, listed) = list_blocked_by number w in
      elim (entries_of listed) [ refuse e ↦ (w₁, refuse e) | ok is ↦ read_second number is w₁ ]

  unfoldable pub mutate : Action → ℕ → ℕ → World → World × Result Reply
  unfolding issue_of run_mutation reply_of
  mutate action blocked_number blocking_number w =
      let (w₁, found) = read_issue blocking_number w in
      elim (issue_of to_lower slug_key blocking_number blocking found) [
        | refuse e ↦ (w₁, refuse e)
        | ok i ↦
            let (w₂, done) = run_mutation api to_lower slug_key action blocked_number i.id w₁ in
            (w₂, reply_of done)
      ]

  unfoldable pub dispatch : Action → ℕ → ℕ → World → World × Result Reply
  unfolding read_both mutate
  dispatch Action.read blocked_number blocking_number w = read_both blocked_number w
  dispatch action blocked_number blocking_number w = mutate action blocked_number blocking_number w

  unfoldable pub run_authorized : Input → World → World × Result Reply
  unfolding dispatch issue_of number_of
  run_authorized i w =
      let (w₁, found) = read_issue (number_of i.blocked_issue_number) w in
      elim (issue_of to_lower slug_key (number_of i.blocked_issue_number) blocked found) [
        | refuse e ↦ (w₁, refuse e)
        | ok _ ↦
            dispatch i.action (number_of i.blocked_issue_number) (number_of i.blocking_issue_number)
              w₁
      ]

  unfoldable pub repo_matches : Option Text → Bool
  repo_matches none = true
  repo_matches (some repo) = text_eq (to_lower repo) slug_key

-- `runIssueDependency`; `slug_key` is the lower-cased name of the authorized repository, and none
-- where the checkout is not authorized.
unfoldable pub run_issue_dependency :
    (api : Api) (to_lower : Text → Text) (slug_key : Option Text) (i : Input)
    → api.World
    → api.World × Result Reply
unfolding validate_input run_authorized repo_matches
run_issue_dependency api to_lower slug_key i w = elim (validate_input i) [
  | some e ↦ (w, refuse e)
  | none ↦ elim slug_key [
    | none ↦ (w, refuse repo_not_authorized)
    | some key ↦
        if repo_matches api to_lower key i.repo
        then run_authorized api to_lower key i w
        else (w, refuse repo_mismatch)
  ]
]
