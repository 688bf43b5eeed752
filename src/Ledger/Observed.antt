-- ===== src/Ledger/Observed.antt =====
-- How `publish` of mcp/ground-control/lib/release-identity.js observes the base branch.
use ground_control.Ledger.Calls.{
  Api, Entry, done, file, call, Head, absent, other_kind, Run, Result,
}
use ground_control.Prelude.{
  refl, arith, List, ◌≡◌, ◌∷◌, length, ℕ, some, ap, Option, [], sym, suc, ◌∙◌, not, ltb, subst,
  zero, none, Bool-cases, inl, inr, ◌≢◌, ◌==◌,
}
use ground_control.Ledger.Fold.{Reservation}
use ground_control.Ledger.Transition.{
  add_artifact, verify_artifacts_at, observe, stable_head, is_at,
}
use ground_control.Prelude.Text.{Text}
use ground_control.Ledger.Operation.{Context, require}
use ground_control.Ledger.Event.{Sha, Body, published}
use ground_control.Ledger.Family.{keys}
use ground_control.Ledger.Race.Slots.{none≢some}
use ground_control.Ledger.Validity.{some_inj}
use ground_control.Ledger.Runs.{done_inj, not_done, bind-done, call-done, require-done}

-- Where no path is missing, the entry looked up is a file.
add_artifact_lem :
    (key : Text) (e : Entry) (rest : List (Text × Sha) × List Text)
    → length (add_artifact key e rest).1 ≡ 0
    → (sha : Sha) × (e ≡ file sha)
      × (length rest.1 ≡ 0)
      × ((add_artifact key e rest).0 ≡ (key, sha) ∷ rest.0)
unfolding add_artifact
add_artifact_lem key (file sha) rest h = (sha, refl, h, refl)
add_artifact_lem key absent rest h = absurd (ground (arith, h))
add_artifact_lem key other_kind rest h = absurd (ground (arith, h))

module _ {W : Type 0} (api : Api W) (ctx : Context) where
  -- The artifacts are the files that one lookup after the other finds at the paths in the tree, each
  -- under the key of its path.
  abbrev pub IsLookedUp : List (Text × Text) → Sha → W → W → List (Text × Sha) → Type 0
  IsLookedUp [] tree w w' artifacts = (w ≡ w') × (artifacts ≡ [])
  IsLookedUp ((key, path) ∷ paths) tree w w' artifacts =
      (v : W) × (sha : Sha) × (rest : List (Text × Sha)) × (api.lookup_path tree path w
        ≡ (v, some (file sha)))
      × IsLookedUp paths tree v w' rest
      × (artifacts ≡ (key, sha) ∷ rest)

  verify-IsLookedUp :
      (paths : List (Text × Text)) (tree : Sha) (w w' : W) (seen : List (Text × Sha) × List Text)
      → verify_artifacts_at api ctx paths tree w ≡ (w', done seen)
      → length seen.1 ≡ 0
      → IsLookedUp paths tree w w' seen.0
  unfolding verify_artifacts_at
  verify-IsLookedUp [] tree w w' seen h none_missing =
      (ap (λ x. x.0) h, ap (λ s. s.0) (sym (done_inj _ _ (ap (λ x. x.1) h))))
  verify-IsLookedUp ((key, path) ∷ paths) tree w w' seen h none_missing =
      let (v, entry, e₀, h₁) = bind-done (call (api.lookup_path tree path)) _ w w' h in
      let (v₁, rest, e, h₂) = bind-done (verify_artifacts_at api ctx paths tree) _ v w' h₁ in
      let same : add_artifact key entry rest ≡ seen = done_inj _ _ (ap (λ x. x.1) h₂) in
      let (sha, is_file, no_more, found) =
        add_artifact_lem key entry rest (ap (λ s. length s.1) same ∙ none_missing) in
      (
        v,
        sha,
        rest.0,
        call-done (api.lookup_path tree path) w v entry e₀ ∙ ap (λ x. (v, some x)) is_file,
        subst (λ x. IsLookedUp paths tree v x rest.0) (ap (λ x. x.0) h₂)
            (verify-IsLookedUp paths tree v v₁ rest e no_more),
        ap (λ s. s.0) (sym same) ∙ found,
      )

  pub keys_lem :
      (paths : List (Text × Text)) (tree : Sha) (w w' : W) (artifacts : List (Text × Sha))
      → IsLookedUp paths tree w w' artifacts
      → keys artifacts ≡ keys paths
  keys_lem [] tree w w' artifacts (_, e) = ap keys e
  keys_lem ((key, path) ∷ paths) tree w w' artifacts (v, sha, rest, _, more, e) =
      ap keys e ∙ ap (λ l. key ∷ l) (keys_lem paths tree v w' rest more)

  -- The heads of the base branch that a run of `publish` from the world `start` observes, each with
  -- the world after it was read: another one is observed where the head moved during the lookups.
  pub data Observes (r : Reservation) (start : W) : W → Head → Type 0 where
    first :
        {at : W} {head : Head}
        → api.branch_head r.terms.base_branch start ≡ (at, some (some head))
        → Observes r start at head
    another :
        {v w at : W} {old head : Head} (artifacts : List (Text × Sha))
        → Observes r start v old
        → IsLookedUp r.terms.paths old.tree v w artifacts
        → api.branch_head r.terms.base_branch w ≡ (at, some (some head))
        → head.sha ≢ old.sha
        → Observes r start at head

  -- A publication of an observed head, which the branch still has after the lookups in its tree.
  pub record IsPublished (r : Reservation) (w w' : W) (body : Body) : Type 0 where
    pub observed : W
    pub head : Head
    pub observes : Observes r w observed head
    pub artifacts : List (Text × Sha)
    pub checked : W
    pub looked_up : IsLookedUp r.terms.paths head.tree observed checked artifacts
    pub again : Head
    pub reread : api.branch_head r.terms.base_branch checked ≡ (w', some (some again))
    pub stable : again.sha ≡ head.sha
    pub body_is : body ≡ published head.sha artifacts

  stable_head_lem :
      (r : Reservation) (start at w w' : W) (head : Head) (artifacts : List (Text × Sha))
      (found : Option Head) (v : W) (again : Run W Body) (body : Body)
      → Observes r start at head
      → IsLookedUp r.terms.paths head.tree at w artifacts
      → api.branch_head r.terms.base_branch w ≡ (v, some found)
      → (((next : Head) → found ≡ some next → Observes r start v next)
          → again v ≡ (w', done body)
          → IsPublished r start w' body)
      → stable_head api ctx (is_at head.sha found) again (published head.sha artifacts) v
        ≡ (w', done body)
      → IsPublished r start w' body
  unfolding stable_head is_at
  stable_head_lem r start at w w' head artifacts none v again body observes looked read ih h =
      ih (λ next e. absurd (none≢some next e)) h
  stable_head_lem r start at w w' head artifacts (some next) v again body observes looked read ih
        h =
      elim (Bool-cases (next.sha == head.sha)) [
        | inl stays ↦
            let answered : Path (W × Result Body) (v, done (published head.sha artifacts))
                (w', done body) =
              subst
                (λ b.
                  stable_head api ctx b again (published head.sha artifacts) v ≡ (w', done body))
                stays h in
            record {
              observed = at;
              head = head;
              observes = observes;
              artifacts = artifacts;
              checked = w;
              looked_up = looked;
              again = next;
              reread = read ∙ ap (λ x. (x, some (some next))) (ap (λ x. x.0) answered);
              stable = ground (arith, stays);
              body_is = sym (done_inj _ _ (ap (λ x. x.1) answered));
            }
        | inr moved ↦
            ih
              (λ other e. subst (Observes r start v) (some_inj next other e) (
                Observes.another artifacts observes looked read
                  (λ same. ground (arith, moved, same))))
              (subst
                (λ b.
                  stable_head api ctx b again (published head.sha artifacts) v ≡ (w', done body))
                moved h)
      ]

  pub observe-IsPublished :
      (n : ℕ) (r : Reservation) (start at w' : W) (found : Option Head) (body : Body)
      → ((head : Head) → found ≡ some head → Observes r start at head)
      → observe api ctx n r found at ≡ (w', done body)
      → IsPublished r start w' body
  unfolding observe
  observe-IsPublished zero r start at w' found body observes h =
      absurd (not_done body (ap (λ x. x.1) h))
  observe-IsPublished (suc n) r start at w' none body observes h =
      absurd (not_done body (ap (λ x. x.1) h))
  observe-IsPublished (suc n) r start at w' (some head) body observes h =
      let (v, seen, e, h₁) =
        bind-done (verify_artifacts_at api ctx r.terms.paths head.tree) _ at w' h in
      let (v₁, u, e₁, h₂) = bind-done (require (not (ltb 0 (length seen.1))) _) _ v w' h₁ in
      let (v₂, found, e₂, h₃) = bind-done (call (api.branch_head r.terms.base_branch)) _ v₁ w' h₂ in
      let (complete, same) = require-done _ _ v v₁ u e₁ in
      stable_head_lem r start at v₁ w' head seen.0 found v₂ (observe api ctx n r found) body
        (observes head refl)
        (subst (λ x. IsLookedUp r.terms.paths head.tree at x seen.0) same
          (verify-IsLookedUp r.terms.paths head.tree at v seen e (ground (arith, complete))))
        (call-done (api.branch_head r.terms.base_branch) v₁ v₂ found e₂)
        (λ later e'. observe-IsPublished n r start v₂ w' found body later e') h₃
