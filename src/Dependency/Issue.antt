-- ===== src/Dependency/Issue.antt =====
-- The issue records, refusals and views of mcp/ground-control/lib/issue-dependency.js.
use ground_control.Prelude.{
  ℕ, Bool, true, false, ◌&&◌, Option, none, some, List, [], ◌∷◌, map, if◌then◌else◌, ltb, ◌==◌, any,
}
use ground_control.Prelude.Text.{Text, text_eq}

pub data Action : Type 0 where
  read add remove : Action

-- The refusals, by their code after `issue_dependency_`.
pub data Refusal : Type 0 where
  action_invalid repo_path_invalid issue_number_invalid blocking_issue_number_invalid : Refusal
  repo_assertion_invalid self_dependency repo_mismatch repo_not_authorized : Refusal
  blocking_issue_not_found blocked_issue_not_found rejected forbidden : Refusal
  transport_unavailable malformed_response not_an_issue : Refusal

pub data Role : Type 0 where
  blocking blocked relationship dependencies : Role

-- A REST issue record: `repository` is what `REPOSITORY_URL_RE` takes from its `repository_url`, and
-- a field is `none` where it has not the type that the tool asks for.
pub record Raw : Type 0 where
  pub id : Option ℕ
  pub repository : Option Text
  pub number : Option ℕ
  pub title : Option Text
  pub state : Option Text
  pub html_url : Option Text
  pub pull_request : Bool

pub record Issue : Type 0 where
  pub id : ℕ
  pub repository : Text
  pub number : ℕ
  pub title : Option Text
  pub state : Option Text
  pub url : Text
  pub is_pull_request : Bool

-- `isPositiveInteger`
unfoldable pub is_positive : Option ℕ → Bool
is_positive none = false
is_positive (some n) = ltb 0 n

unfoldable pub normalize_fields :
    Raw → Option Text → Option ℕ → Option ℕ → Option Text → Option Issue
normalize_fields r (some repository) (some number) (some id) (some (c ∷ url)) =
    if ltb 0 number && ltb 0 id
    then some (record {
      id = id;
      repository = repository;
      number = number;
      title = r.title;
      state = r.state;
      url = c ∷ url;
      is_pull_request = r.pull_request;
    })
    else none
normalize_fields r _ _ _ _ = none

-- `normalizeIssue`
unfoldable pub normalize_issue : Raw → Option Issue
unfolding normalize_fields
normalize_issue r = normalize_fields r r.repository r.number r.id r.html_url

-- What a call of `gh` ends in: its JSON, an answer that is not JSON, or a failure with the HTTP
-- status in its message, 0 if there is none.
pub data Call (A : Type 0) : Type 0 where
  answer : A → Call A
  not_json : Call A
  failed : (status : ℕ) → Call A

-- `notFound`
unfoldable pub not_found : Role → Refusal
not_found blocking = blocking_issue_not_found
not_found relationship = rejected
not_found _ = blocked_issue_not_found

-- `classifyFailure` at an HTTP status
unfoldable pub classify_status : Role → ℕ → Refusal
unfolding not_found
classify_status role status =
    if status == 404
    then not_found role
    else if any (λ n. status == n) (401 ∷ 403 ∷ [])
    then forbidden
    else if any (λ n. status == n) (400 ∷ 409 ∷ 422 ∷ [])
    then rejected
    else transport_unavailable

pub record View : Type 0 where
  pub repository : Text
  pub number : ℕ
  pub title : Option Text
  pub state : Option Text
  pub url : Option Text
  pub in_authorized_repository : Bool

module _ (to_lower : Text → Text) (slug_key : Text) where
  abbrev pub is_local : Issue → Bool
  is_local i = text_eq (to_lower i.repository) slug_key

  unfoldable pub view : Issue → View
  view i =
      if is_local i
      then record {
        repository = i.repository;
        number = i.number;
        title = i.title;
        state = i.state;
        url = some i.url;
        in_authorized_repository = true;
      }
      else record {
        repository = i.repository;
        number = i.number;
        title = none;
        state = none;
        url = none;
        in_authorized_repository = false;
      }

  unfoldable pub views : List Issue → List View
  unfolding view
  views entries = map view entries

  unfoldable pub has_blocker : List Issue → ℕ → Bool
  has_blocker entries id = any (λ e. (e.id == id) && is_local e) entries
