-- ===== src/Dependency/Access.antt =====
-- What `runIssueDependency` of mcp/ground-control/lib/issue-dependency.js may change.
use ground_control.Dependency.Run.{
  run_issue_dependency, read_second, read_both, dispatch, mutated, repo_matches, Reply, number_of,
  dependencies_of, run_authorized,
}
use ground_control.Dependency.Tool.{
  Api, issue_of, Input, Mutation, is_mutating, ok, validate_input, Result, refuse, entries_of,
}
use ground_control.Prelude.{
  ℕ, Option, List, ◌≡◌, ◌≢◌, some, none, true, false, refl, Option-cases, inl, arith, inr,
  Bool-cases,
}
use ground_control.Prelude.Text.{Text}
use ground_control.Dependency.Issue.{
  Call, Role, Raw, Issue, Action, is_local, add, failed, blocked, answer, remove, views,
  normalize_issue, not_json,
}

-- The tool never writes on a read: with whatever in place of the two endpoints that write, a call
-- with the action `read` gives the same reply and leaves the same state.
pub read_only :
    (api : Api) (add' remove' : ℕ → ℕ → api.World → api.World × Call (Unit {0})) (f : Text → Text)
    (slug : Option Text) (i : Input) (w : api.World)
    → i.action ≡ Action.read
    → run_issue_dependency api f slug i w
      ≡ run_issue_dependency
          (record api { add_blocker = add'; remove_blocker = remove' })
          f
          slug
          i
          w
unfolding run_issue_dependency
read_only api add' remove' f slug i w h = rw h refl

-- What the tool has checked before it starts a mutation.
pub record IsChecked (api : Api) (f : Text → Text) (slug : Option Text) (i : Input) (w : api.World)
    : Type 0 where
  pub key : Text
  pub authorized : slug ≡ some key
  pub valid : validate_input i ≡ none
  pub agreed : repo_matches api f key i.repo ≡ true
  pub mutates : is_mutating i.action ≡ true
  pub issue : Issue
  pub found :
      issue_of f key
        (number_of i.blocked_issue_number)
        blocked
        (api.read_issue (number_of i.blocked_issue_number) w).1
      ≡ ok issue
  pub own : is_local f key issue ≡ true
  pub no_pull_request : issue.is_pull_request ≡ false

issue_of-own :
    (f : Text → Text) (key : Text) (n : ℕ) (role : Role) (c : Call Raw) (issue : Issue)
    → issue_of f key n role c ≡ ok issue
    → (is_local f key issue ≡ true) × (issue.is_pull_request ≡ false)
unfolding issue_of
issue_of-own f key n role not_json issue h = cc
issue_of-own f key n role (failed status) issue h = cc
issue_of-own f key n role (answer r) issue h = elim (Option-cases (normalize_issue r)) [
  | inl none_left ↦ ground (arith, none_left, h)
  | inr (j, kept) ↦ ground (arith, kept, h)
]

module _ (api : Api) (f : Text → Text) (key : Text) where
  open api use {World, list_blocked_by, list_blocking}

  read_second_reply :
      (number : ℕ) (is : List Issue) (w : World) (m : Mutation)
      → (read_second api f key number is w).1 ≢ ok (mutated m)
  unfolding read_second
  read_second_reply number is w m h = by_entries (entries_of (list_blocking number w).1) h
    where
      by_entries :
          (r : Result (List Issue))
          → (elim r as (λ _. World × Result Reply) [
            | refuse e ↦ ((list_blocking number w).0, refuse e)
            | ok js ↦
                ((list_blocking number w).0, ok (dependencies_of (views f key is) (views f key js)))
          ]).1
            ≡ ok (mutated m)
          → ⊥
      by_entries (refuse e) h = cc
      by_entries (ok js) h = cc

  read_both_reply :
      (number : ℕ) (w : World) (m : Mutation) → (read_both api f key number w).1 ≢ ok (mutated m)
  unfolding read_both
  read_both_reply number w m h = by_entries (entries_of (list_blocked_by number w).1) h
    where
      by_entries :
          (r : Result (List Issue))
          → (elim r as (λ _. World × Result Reply) [
            | refuse e ↦ ((list_blocked_by number w).0, refuse e)
            | ok is ↦ read_second api f key number is (list_blocked_by number w).0
          ]).1
            ≡ ok (mutated m)
          → ⊥
      by_entries (refuse e) h = cc
      by_entries (ok is) h = read_second_reply number is (list_blocked_by number w).0 m h

  dispatch-mutates :
      (action : Action) (a b : ℕ) (w : World) (m : Mutation)
      → (dispatch api f key action a b w).1 ≡ ok (mutated m)
      → is_mutating action ≡ true
  unfolding dispatch is_mutating
  dispatch-mutates Action.read a b w m h = elim (read_both_reply a w m h) [ ]
  dispatch-mutates add a b w m h = refl
  dispatch-mutates remove a b w m h = refl

authorized-IsChecked :
    (api : Api) (f : Text → Text) (key : Text) (i : Input) (w : api.World) (m : Mutation)
    → validate_input i ≡ none
    → repo_matches api f key i.repo ≡ true
    → (run_authorized api f key i w).1 ≡ ok (mutated m)
    → IsChecked api f (some key) i w
unfolding run_authorized
authorized-IsChecked api f key i w m valid agreed h =
    by_issue (issue_of f key number blocked read_back.1) refl h
  where
    number : ℕ
    number = number_of i.blocked_issue_number

    read_back : api.World × Call Raw
    read_back = api.read_issue number w

    by_issue :
        (r : Result Issue)
        → issue_of f key number blocked read_back.1 ≡ r
        → (elim r as (λ _. api.World × Result Reply) [
          | refuse e ↦ (read_back.0, refuse e)
          | ok _ ↦
              dispatch api f key i.action number (number_of i.blocking_issue_number) read_back.0
        ]).1
          ≡ ok (mutated m)
        → IsChecked api f (some key) i w
    by_issue (refuse e) same h = cc
    by_issue (ok issue) same h =
        let (own, plain) = issue_of-own f key number blocked read_back.1 issue same in
        record {
          key = key;
          authorized = refl;
          valid = valid;
          agreed = agreed;
          mutates =
              dispatch-mutates api f key i.action number (number_of i.blocking_issue_number)
                read_back.0 m h;
          issue = issue;
          found = same;
          own = own;
          no_pull_request = plain;
        }

-- A reply that reports a mutation comes only of a valid request in an authorized repository that the
-- asserted one, if any, agrees with, for an issue of that repository that is no pull request.
pub mutated-IsChecked :
    (api : Api) (f : Text → Text) (slug : Option Text) (i : Input) (w : api.World) (m : Mutation)
    → (run_issue_dependency api f slug i w).1 ≡ ok (mutated m)
    → IsChecked api f slug i w
unfolding run_issue_dependency
mutated-IsChecked api f none i w m h = elim (Option-cases (validate_input i)) [
  | inl valid ↦ ground (arith, valid, h)
  | inr (e, invalid) ↦ ground (arith, invalid, h)
]
mutated-IsChecked api f (some key) i w m h = elim (Option-cases (validate_input i)) [
  | inr (e, invalid) ↦ ground (arith, invalid, h)
  | inl valid ↦ elim (Bool-cases (repo_matches api f key i.repo)) [
    | inl agreed ↦
        authorized-IsChecked api f key i w m valid agreed (ground (arith, valid, agreed, h))
    | inr other ↦ ground (arith, valid, other, h)
  ]
]
