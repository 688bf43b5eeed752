-- ===== src/Obligation/Reobservation.antt =====
-- `hasVerifiedStationReobservation` of mcp/ground-control/lib/execution-obligation-v2.js.
use ground_control.Prelude.{ℕ, Bool, false, not, ◌&&◌, Option, none, some, List, find, ◌==◌}
use ground_control.Prelude.Text.{Text, text_eq, is_blank}

-- A comment of the issue thread.
pub record Comment : Type 0 where
  pub id : ℕ
  pub author_login : Option Text

module _ (to_lower : Text → Text) where
  -- `login?.toLowerCase() === trusted`
  unfoldable pub is_by : Text → Option Text → Bool
  unfolding text_eq
  is_by trusted none = false
  is_by trusted (some login) = text_eq (to_lower login) trusted

  unfoldable pub is_record_by : Text → Option Comment → Bool
  unfolding is_by
  is_record_by trusted none = false
  is_record_by trusted (some c) = is_by trusted c.author_login

  unfoldable pub has_verified_reobservation :
      (observation_record_id : Option ℕ) (marker : Comment) (comments : List Comment)
      (trusted_login : Option Text)
      → Bool
  unfolding is_record_by is_blank
  has_verified_reobservation record_id marker comments none = false
  has_verified_reobservation none marker comments (some login) = false
  has_verified_reobservation (some n) marker comments (some login) =
      not (is_blank login)
      && is_by (to_lower login) marker.author_login
      && not (n == marker.id)
      && is_record_by (to_lower login) (find (λ c. c.id == n) comments)
