-- ===== src/Obligation/Trust.antt =====
-- Who can attest a re-observation (mcp/ground-control/lib/execution-obligation-v2.js).
use ground_control.Prelude.{
  ℕ, true, Option, none, some, List, find, ◌==◌, ◌≡◌, ◌∷◌, ◌≢◌, arith, Option-cases, inl, [], inr,
  subst, sym,
}
use ground_control.Obligation.Reobservation.{
  Comment, is_by, is_record_by, has_verified_reobservation,
}
use ground_control.Prelude.Text.{Text}

found_id :
    (n : ℕ) (comments : List Comment) (c : Comment)
    → find (λ d. d.id == n) comments ≡ some c
    → c.id ≡ n
found_id n [] c h = cc
found_id n (d ∷ comments) c h = ground (arith, found_id n comments c)

-- A re-observation is verified only if the posting identity wrote the marker, and wrote another
-- comment of the thread too, namely the one that the event names as its record.
pub verified_evidence :
    (to_lower : Text → Text) (record_id : Option ℕ) (marker : Comment) (comments : List Comment)
    (login : Text)
    → has_verified_reobservation to_lower record_id marker comments (some login) ≡ true
    → (c : Comment) × (find (λ d. d.id == c.id) comments ≡ some c)
      × (record_id ≡ some c.id)
      × (c.id ≢ marker.id)
      × (is_by to_lower (to_lower login) c.author_login ≡ true)
      × (is_by to_lower (to_lower login) marker.author_login ≡ true)
unfolding has_verified_reobservation is_record_by
verified_evidence to_lower none marker comments login h = cc
verified_evidence to_lower (some n) marker comments login h =
    elim (Option-cases (find (λ d. d.id == n) comments)) [
      | inl missing ↦ ground arith
      | inr (c, found) ↦
          let named : c.id ≡ n = found_id n comments c found in
          (
            c,
            subst (λ m. find (λ d. d.id == m) comments ≡ some c) (sym named) found,
            ground arith,
            ground arith,
            ground arith,
            ground arith,
          )
    ]
