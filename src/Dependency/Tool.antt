-- ===== src/Dependency/Tool.antt =====
-- The operations of mcp/ground-control/lib/issue-dependency.js over GitHub, which is a parameter:
-- every call of it takes the state of the world and returns the next one.
use ground_control.Prelude.{
  ℕ, Bool, true, false, not, ◌&&◌, Option, none, some, List, [], ◌∷◌, if◌then◌else◌, ◌==◌, is_some,
}
use ground_control.Prelude.Text.{Text}
use ground_control.Dependency.Issue.{
  Action, read, add, Refusal, issue_number_invalid, blocking_issue_number_invalid,
  repo_path_invalid, repo_assertion_invalid, self_dependency, rejected, malformed_response,
  not_an_issue, Role, relationship, dependencies, Raw, Issue, normalize_issue, Call, answer,
  not_json, failed, classify_status, View, views, has_blocker, is_positive, is_local,
}

-- The dependency endpoints of `dependencyApi`; an answer that is no array is `none`.
pub record Api : Type 1 where
  pub World : Type 0
  pub read_issue : ℕ → World → World × Call Raw
  pub list_blocked_by : ℕ → World → World × Call (Option (List Raw))
  pub list_blocking : ℕ → World → World × Call (Option (List Raw))
  pub add_blocker : ℕ → ℕ → World → World × Call (Unit {0})
  pub remove_blocker : ℕ → ℕ → World → World × Call (Unit {0})

pub data Result (A : Type 0) : Type 0 where
  ok : A → Result A
  refuse : Refusal → Result A

pub record Input : Type 0 where
  pub action : Action
  pub absolute_path : Bool
  pub blocked_issue_number : Option ℕ
  pub blocking_issue_number : Option ℕ
  pub repo : Option Text
  pub repo_well_formed : Bool

unfoldable pub is_mutating : Action → Bool
is_mutating read = false
is_mutating _ = true

unfoldable pub same_number : Option ℕ → Option ℕ → Bool
same_number (some a) (some b) = a == b
same_number _ _ = false

-- `validateCallerInput` on a supported action: the refusal, if any. `absolute_path` and
-- `repo_well_formed` are the tests of the path and of the repository's form.
unfoldable pub validate_input : Input → Option Refusal
unfolding is_mutating same_number is_positive
validate_input i =
    if not i.absolute_path
    then some repo_path_invalid
    else if not (is_positive i.blocked_issue_number)
    then some issue_number_invalid
    else if is_mutating i.action && not (is_positive i.blocking_issue_number)
    then some blocking_issue_number_invalid
    else if not (is_mutating i.action) && is_some i.blocking_issue_number
    then some blocking_issue_number_invalid
    else if is_some i.repo && not i.repo_well_formed
    then some repo_assertion_invalid
    else if is_mutating i.action && same_number i.blocked_issue_number i.blocking_issue_number
    then some self_dependency
    else none

-- The loop of `readDependencies` over the records.
unfoldable pub normalize_all : List Raw → Option (List Issue)
normalize_all [] = some []
normalize_all (r ∷ rs) = elim (normalize_issue r) [
  | none ↦ none
  | some i ↦ elim (normalize_all rs) [ none ↦ none | some is ↦ some (i ∷ is) ]
]

unfoldable pub entries_of : Call (Option (List Raw)) → Result (List Issue)
unfolding classify_status normalize_all
entries_of (answer (some records)) = elim (normalize_all records) [
  | none ↦ refuse malformed_response
  | some is ↦ ok is
]
entries_of (answer none) = refuse malformed_response
entries_of not_json = refuse malformed_response
entries_of (failed status) = refuse (classify_status dependencies status)

pub data Outcome : Type 0 where
  already_satisfied changed reconciled : Outcome

pub record Mutation : Type 0 where
  pub outcome : Outcome
  pub blocked_by : List View

unfoldable pub failed_write : {A : Type 0} → Call A → Option Refusal
unfolding classify_status
failed_write (answer a) = none
failed_write not_json = some malformed_response
failed_write (failed status) = some (classify_status relationship status)

-- The Boolean `===`.
unfoldable pub agrees : Bool → Bool → Bool
agrees true b = b
agrees false b = not b

unfoldable pub desired : Action → Bool
desired add = true
desired _ = false

module _ (to_lower : Text → Text) (slug_key : Text) where
  -- `resolveIssue`
  unfoldable pub issue_of : ℕ → Role → Call Raw → Result Issue
  unfolding classify_status
  issue_of number role (answer r) = elim (normalize_issue r) [
    | none ↦ refuse malformed_response
    | some i ↦
        if not (i.number == number)
        then refuse malformed_response
        else if not (is_local to_lower slug_key i)
        then refuse malformed_response
        else if i.is_pull_request
        then refuse not_an_issue
        else ok i
  ]
  issue_of number role not_json = refuse malformed_response
  issue_of number role (failed status) = refuse (classify_status role status)

  -- The end of `runMutation`, from the second read of the dependencies.
  unfoldable pub settle_mutation : Bool → ℕ → Option Refusal → Result (List Issue) → Result Mutation
  unfolding agrees
  settle_mutation want id write_error (refuse e) = refuse e
  settle_mutation want id write_error (ok after) =
      if agrees (has_blocker to_lower slug_key after id) want
      then ok (record {
        outcome = elim write_error [ none ↦ changed | some _ ↦ reconciled ];
        blocked_by = views to_lower slug_key after;
      })
      else elim write_error [ none ↦ refuse rejected | some e ↦ refuse e ]

module _ (api : Api) (to_lower : Text → Text) (slug_key : Text) where
  open api use {World, list_blocked_by, add_blocker, remove_blocker}

  unfoldable pub write : Action → ℕ → ℕ → World → World × Call (Unit {0})
  write add number id w = add_blocker number id w
  write _ number id w = remove_blocker number id w

  unfoldable pub write_and_settle : Action → ℕ → ℕ → World → World × Result Mutation
  unfolding write entries_of settle_mutation failed_write desired
  write_and_settle action number id w =
      let (w₁, written) = write action number id w in
      let (w₂, listed) = list_blocked_by number w₁ in
      (
        w₂,
        settle_mutation to_lower slug_key (desired action) id (failed_write written)
            (entries_of listed),
      )

  unfoldable pub mutate_from :
      Action → ℕ → ℕ → World → Result (List Issue) → World × Result Mutation
  unfolding write_and_settle
  mutate_from action number id w (refuse e) = (w, refuse e)
  mutate_from action number id w (ok before) =
      if agrees (has_blocker to_lower slug_key before id) (desired action)
      then (
        w,
        ok (record { outcome = already_satisfied; blocked_by = views to_lower slug_key before }),
      )
      else write_and_settle action number id w

  -- `runMutation`
  unfoldable pub run_mutation : Action → ℕ → ℕ → World → World × Result Mutation
  unfolding mutate_from
  run_mutation action number id w =
      let (w₁, listed) = list_blocked_by number w in
      mutate_from action number id w₁ (entries_of listed)
