-- ===== src/Ledger/Status.antt =====
-- `status` of mcp/ground-control/lib/release-identity.js.
use ground_control.Ledger.Calls.{◌>>=◌, Api, Run, answer}
use ground_control.Prelude.{
  ℕ, Option, Bool, List, [], true, suc, some, ◌∷◌, ◌==◌, filter, length, zero, none, leb, map,
  reverse,
}
use ground_control.Ledger.Fold.{Reservation, highest}
use ground_control.Ledger.Operation.{Context, fold_log}
use ground_control.Ledger.View.{View, to_view}

abbrev pub status_reservations_max : ℕ
status_reservations_max = 200

pub record StatusReply : Type 0 where
  pub highest_sequence : ℕ
  pub total : ℕ
  pub complete : Bool
  pub shown : List View

-- The first `n`; of the reservations, the newest `n`.
abbrev pub take {ℓ} : {A : Type ℓ} → ℕ → List A → List A
take zero xs = []
take (suc n) [] = []
take (suc n) (x ∷ xs) = x ∷ take n xs

unfoldable pub is_for : (issue : Option ℕ) → Reservation → Bool
is_for none r = true
is_for (some n) r = r.claim.event.issue_number == n

module _ {W : Type 0} (api : Api W) (ctx : Context) where
  unfoldable pub status_of : (issue : Option ℕ) → List Reservation → StatusReply
  unfolding is_for highest to_view
  status_of issue rs =
      let matching = filter (is_for issue) rs in
      record {
        highest_sequence = highest rs;
        total = length matching;
        complete = leb (length matching) status_reservations_max;
        shown =
            map (to_view ctx.caller.repository ctx.caller.family)
              (reverse (take status_reservations_max matching));
      }

  -- `status`; the views are in the order of the slots.
  unfoldable pub status : (issue : Option ℕ) → Run W StatusReply
  unfolding fold_log status_of
  status issue = do rs ← fold_log api ctx; answer (status_of issue rs)
