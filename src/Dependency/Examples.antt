-- ===== src/Dependency/Examples.antt =====
-- The theorems on the dependency tool at concrete inputs.
use ground_control.Prelude.Text.{Text, codes, text_eq}
use ground_control.Prelude.{
  ℕ, List, ◌∷◌, some, [], false, map, true, filter, not, ◌==◌, refl, ◌≡◌, none, ◌↔◌,
}
use ground_control.Dependency.Tool.{
  Api, Mutation, changed, run_mutation, Input, ok, already_satisfied,
}
use ground_control.Dependency.Issue.{
  Action, failed, Issue, Raw, add, answer, views, has_blocker, normalize_issue, Call,
}
use ground_control.Dependency.Redaction.{AllAlike, views_iff}
use ground_control.Dependency.Mutation.{IsReported, run_mutation-IsReported}
use ground_control.Dependency.Run.{run_issue_dependency}
use ground_control.Dependency.Access.{read_only, IsChecked, mutated-IsChecked}
use ground_control.Dependency.Again.{run_mutation_twice}

abbrev slug : Text
slug = codes "owner/repo"

abbrev record_of : ℕ → Raw
record_of n = record {
  id = some n;
  repository = some slug;
  number = some n;
  title = some (codes "title");
  state = some (codes "open");
  html_url = some (codes "https://github.com/owner/repo/issues");
  pull_request = false;
}

-- A GitHub with the blockers of one issue, whose identifiers are their numbers.
abbrev github : Api
github = record {
  World = List ℕ;
  read_issue = (λ n w. (w, answer (record_of n)));
  list_blocked_by = (λ n w. (w, answer (some (map record_of w))));
  list_blocking = (λ n w. (w, answer (some [])));
  add_blocker = (λ n id w. (id ∷ w, answer tt));
  remove_blocker = (λ n id w. (filter (λ k. not (k == id)) w, answer tt));
}

abbrev same : Text → Text
same t = t

abbrev outside : Issue
outside = record {
  id = 3;
  repository = codes "other/repo";
  number = 3;
  title = some (codes "hidden");
  state = some (codes "open");
  url = codes "https://github.com/other/repo/issues/3";
  is_pull_request = false;
}

abbrev renamed : Issue
renamed = record outside { title = none }

views_iff_example :
    (views same slug (outside ∷ []) ≡ views same slug (renamed ∷ []))
    ↔ AllAlike same slug (outside ∷ []) (renamed ∷ [])
views_iff_example = views_iff same slug (outside ∷ []) (renamed ∷ [])

abbrev reported : Mutation
reported = record {
  outcome = changed;
  blocked_by =
      record {
        repository = slug;
        number = 2;
        title = some (codes "title");
        state = some (codes "open");
        url = some (codes "https://github.com/owner/repo/issues");
        in_authorized_repository = true;
      }
      ∷ [];
}

run_mutation-IsReported_example :
    IsReported github same slug add 1 2 []
      (answer (some []))
      (run_mutation github same slug add 1 2 []).0
      reported
unfolding run_mutation has_blocker normalize_issue text_eq views
run_mutation-IsReported_example = run_mutation-IsReported github same slug add 1 2 [] reported refl

run_mutation_twice_example :
    let end = (run_mutation github same slug add 1 2 []).0 in
    run_mutation github same slug add 1 2 end
    ≡ (end, ok (record { outcome = already_satisfied; blocked_by = reported.blocked_by }))
unfolding run_mutation has_blocker normalize_issue text_eq views
run_mutation_twice_example =
    run_mutation_twice github same slug (λ n w. refl) add 1 2 [] reported refl

abbrev request : Input
request = record {
  action = add;
  absolute_path = true;
  blocked_issue_number = some 1;
  blocking_issue_number = some 2;
  repo = some slug;
  repo_well_formed = true;
}

abbrev refuse_write : ℕ → ℕ → List ℕ → List ℕ × Call (Unit {0})
refuse_write n id w = (w, failed 403)

read_only_example :
    run_issue_dependency github same (some slug) (record request { action = Action.read }) (2 ∷ [])
    ≡ run_issue_dependency
        (record github { add_blocker = refuse_write; remove_blocker = refuse_write })
        same
        (some slug)
        (record request { action = Action.read })
        (2 ∷ [])
read_only_example =
    read_only github refuse_write refuse_write same (some slug)
      (record request { action = Action.read }) (2 ∷ []) refl

mutated-IsChecked_example : IsChecked github same (some slug) request []
unfolding run_issue_dependency run_mutation has_blocker normalize_issue text_eq views
mutated-IsChecked_example = mutated-IsChecked github same (some slug) request [] reported refl
