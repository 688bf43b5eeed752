-- ===== src/Ledger/Decided.antt =====
-- What `publish` and `abandon` of mcp/ground-control/lib/release-identity.js decide to write.
use ground_control.Ledger.Calls.{Api, done, call, run_not_authorized}
use ground_control.Prelude.{refl, List, ◌≡◌, true, ◌∷◌, some, ap, Option, [], sym, ◌∙◌, subst, none}
use ground_control.Ledger.Fold.{same_keys, Reservation, is_outcome, artifacts_match, sort_keys}
use ground_control.Ledger.Transition.{decide, Action, head_observations_max, abandon_it, publish_it}
use ground_control.Prelude.Text.{Text, text_eq_refl, option_eq, text_eq, text_eq_iff}
use ground_control.Ledger.Operation.{
  Context, require, require_run_branch, trusted_branch, branch_matches,
}
use ground_control.Ledger.Event.{Sha, Body, abandoned, published, Reason}
use ground_control.Ledger.Family.{keys}
use ground_control.Ledger.Observed.{IsPublished, keys_lem, observe-IsPublished, Observes}
use ground_control.Ledger.Runs.{not_done, bind-done, require-done, done_inj, call-done}

same_keys_refl : (ks : List Text) → same_keys ks ks ≡ true
unfolding same_keys
same_keys_refl [] = refl
same_keys_refl (k ∷ ks) = rw (text_eq_refl k, same_keys_refl ks) refl

module _ {W : Type 0} (api : Api W) (ctx : Context) where
  -- An abandonment with the reason given, in a checkout on the branch of the claim, which is trusted.
  abbrev pub IsAbandoned : Reservation → Reason → W → W → Body → Type 0
  IsAbandoned r reason w w' body =
      (body ≡ abandoned reason)
      × (v : W) × (api.read_active_branch w ≡ (v, some (some r.terms.branch)))
      × (api.is_trusted_run_branch ctx.caller.issue_number r.terms.branch v ≡ (w', some true))

  abbrev pub IsDecided : Action → Reservation → W → W → Body → Type 0
  IsDecided publish_it r w w' body = IsPublished api ctx r w w' body
  IsDecided (abandon_it reason) r w w' body = IsAbandoned r reason w w' body

  trusted_lem :
      (expected got : Text) (active : Option Text) (w w' : W)
      → trusted_branch api ctx (some expected) active w ≡ (w', done got)
      → (active ≡ some expected)
        × (api.is_trusted_run_branch ctx.caller.issue_number expected w ≡ (w', some true))
  unfolding trusted_branch branch_matches option_eq
  trusted_lem expected got none w w' h = absurd (not_done got (ap (λ x. x.1) h))
  trusted_lem expected got (some active) w w' h =
      let (v, u, e, h₁) =
        bind-done (require (text_eq active expected) run_not_authorized) _ w w' h in
      let (v₁, trusted, e₁, h₂) =
        bind-done (call (api.is_trusted_run_branch ctx.caller.issue_number active)) _ v w' h₁ in
      let (v₂, u₂, e₂, h₃) = bind-done (require trusted run_not_authorized) _ v₁ w' h₂ in
      let (matches, same) = require-done _ _ w v u e in
      let (yes_trusted, same₂) = require-done trusted _ v₁ v₂ u₂ e₂ in
      let named : active ≡ expected = (text_eq_iff active expected).0 matches in
      (
        ap some named,
        subst (λ x. api.is_trusted_run_branch ctx.caller.issue_number x w ≡ (w', some true)) named
            (ap (api.is_trusted_run_branch ctx.caller.issue_number active) same
              ∙ call-done (api.is_trusted_run_branch ctx.caller.issue_number active) v v₁ trusted e₁
              ∙ ap (λ x. (v₁, some x)) yes_trusted
              ∙ ap (λ x. (x, some true)) (same₂ ∙ ap (λ x. x.0) h₃)),
      )

  abandon-IsAbandoned :
      (reason : Reason) (r : Reservation) (w w' : W) (body : Body)
      → decide api ctx (abandon_it reason) r w ≡ (w', done body)
      → IsAbandoned r reason w w' body
  unfolding decide require_run_branch
  abandon-IsAbandoned reason r w w' body h =
      let (v, b, e, h₁) = bind-done (require_run_branch api ctx (some r.terms.branch)) _ w w' h in
      let (v₁, active, e₁, h₂) = bind-done (call api.read_active_branch) _ w v e in
      let (named, trusted) = trusted_lem r.terms.branch b active v₁ v h₂ in
      (
        sym (done_inj _ _ (ap (λ x. x.1) h₁)),
        v₁,
        call-done api.read_active_branch w v₁ active e₁ ∙ ap (λ x. (v₁, some x)) named,
        trusted ∙ ap (λ x. (x, some true)) (ap (λ x. x.0) h₁),
      )

  publish-IsPublished :
      (r : Reservation) (w w' : W) (body : Body)
      → decide api ctx publish_it r w ≡ (w', done body)
      → IsPublished api ctx r w w' body
  unfolding decide
  publish-IsPublished r w w' body h =
      let (v, found, e, h₁) = bind-done (call (api.branch_head r.terms.base_branch)) _ w w' h in
      observe-IsPublished api ctx head_observations_max r w v w' found body
        (λ head same. Observes.first (
          call-done (api.branch_head r.terms.base_branch) w v found e ∙ ap (λ x. (v, some x)) same))
        h₁

  -- The outcome that is decided may follow the claim.
  IsFitting : Reservation → Body → Type 0
  IsFitting r body = (is_outcome body ≡ true) × (artifacts_match body r.terms ≡ true)

  published-IsFitting :
      (r : Reservation) (revision : Sha) (artifacts : List (Text × Sha))
      → keys artifacts ≡ keys r.terms.paths
      → IsFitting r (published revision artifacts)
  unfolding artifacts_match IsFitting is_outcome
  published-IsFitting r revision artifacts same = (
    refl,
    ap (λ k. same_keys (sort_keys k) (sort_keys (keys r.terms.paths))) same
        ∙ same_keys_refl (sort_keys (keys r.terms.paths)),
  )

  abandoned-IsFitting : (r : Reservation) (reason : Reason) → IsFitting r (abandoned reason)
  unfolding artifacts_match IsFitting is_outcome
  abandoned-IsFitting r reason = (refl, refl)

  -- What `publish` decides to append is the publication of a head of the base branch that it has
  -- observed and that the branch still has when it is read again, with one artifact for each path of
  -- the claim, in order, under its key: the file that was looked up at that path in the tree of that
  -- head. What `abandon` decides to append is an abandonment with its reason, in a checkout on the
  -- branch of the claim, which is trusted. Both are outcomes that fit the claim.
  pub decide-IsFitting :
      (action : Action) (r : Reservation) (w w' : W) (body : Body)
      → decide api ctx action r w ≡ (w', done body)
      → (is_outcome body ≡ true)
        × (artifacts_match body r.terms ≡ true)
        × IsDecided action r w w' body
  unfolding IsFitting
  decide-IsFitting publish_it r w w' body h =
      let is_published = publish-IsPublished r w w' body h in
      let (outcome, fits) = subst (IsFitting r) (sym is_published.body_is) (
        published-IsFitting r is_published.head.sha is_published.artifacts (
          keys_lem api ctx r.terms.paths is_published.head.tree is_published.observed
            is_published.checked is_published.artifacts is_published.looked_up)) in
      (outcome, fits, is_published)
  decide-IsFitting (abandon_it reason) r w w' body h =
      let is_abandoned = abandon-IsAbandoned reason r w w' body h in
      let (outcome, fits) =
        subst (IsFitting r) (sym is_abandoned.0) (abandoned-IsFitting r reason) in
      (outcome, fits, is_abandoned)
