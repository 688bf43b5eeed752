-- ===== src/Dependency/Again.antt =====
-- A mutation of mcp/ground-control/lib/issue-dependency.js that is repeated.
use ground_control.Dependency.Tool.{
  agrees, Api, run_mutation, mutate_from, Mutation, ok, desired, already_satisfied, write,
}
use ground_control.Prelude.{Bool, ◌≡◌, ℕ, true, false, refl, inl, subst, sym, ◌∙◌, inr}
use ground_control.Prelude.Text.{Text}
use ground_control.Dependency.Issue.{Action}
use ground_control.Dependency.Mutation.{Observed, run_mutation-IsReported}

agrees_refl : (b : Bool) → agrees b b ≡ true
unfolding agrees
agrees_refl true = refl
agrees_refl false = refl

module _ (api : Api) (f : Text → Text) (key : Text) where
  open api use {World, list_blocked_by}

  -- A run whose first read shows the wanted state already.
  observed_again :
      (action : Action) (number id : ℕ) (w : World) (m : Mutation)
      → (list_blocked_by number w).0 ≡ w
      → Observed f key (desired action) id (list_blocked_by number w).1 m
      → run_mutation api f key action number id w
        ≡ (w, ok (record { outcome = already_satisfied; blocked_by = m.blocked_by }))
  unfolding run_mutation mutate_from
  observed_again action number id w m pure seen =
      rw (seen.read_back, seen.holds, seen.shown, pure, agrees_refl (desired action)) refl

  -- Where listing the dependencies does not change them, a mutation that reported success, run
  -- again from the state that it left, writes nothing, leaves that state, and reports
  -- `already_satisfied` with the same dependencies.
  pub run_mutation_twice :
      ((number : ℕ) (w : World) → (list_blocked_by number w).0 ≡ w)
      → (action : Action) (number id : ℕ) (w : World) (m : Mutation)
      → (run_mutation api f key action number id w).1 ≡ ok m
      → let end = (run_mutation api f key action number id w).0 in
        run_mutation api f key action number id end
        ≡ (end, ok (record { outcome = already_satisfied; blocked_by = m.blocked_by }))
  run_mutation_twice pure action number id w m h =
      let end = (run_mutation api f key action number id w).0 in
      elim (run_mutation-IsReported api f key action number id w m h) [
        | inl (kept, same, seen) ↦ observed_again action number id end m (pure number end) (
            subst (λ v. Observed f key (desired action) id (list_blocked_by number v).1 m)
              (sym (same ∙ pure number w)) seen)
        | inr (same, seen, how) ↦ observed_again action number id end m (pure number end) (
            subst (λ v. Observed f key (desired action) id (list_blocked_by number v).1 m)
              (sym (
                same
                ∙ pure number (write api f key action number id (list_blocked_by number w).0).0))
              seen)
      ]
