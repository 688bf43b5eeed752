-- ===== src/Ledger/Race/Safety.antt =====
-- Every interleaving of runs of mcp/ground-control/lib/release-identity.js leaves a log that
-- `foldReleaseLedger` accepts.
use ground_control.Prelude.{arith, List, map, ◌≡◌, ◌++◌, refl}
use ground_control.Ledger.Fold.{Reservation, read_ok}
use ground_control.Ledger.Race.{
  Repo, Later, add_claim, Step, Steps, add_outcome, new_commits, one_more, log_of, new_claim, start,
  new_outcome,
}
use ground_control.Ledger.Event.{Codec}
use ground_control.Prelude.Text.{Text}
use ground_control.Ledger.Race.Invariant.{
  IsReadable, claim_at, log_of-IsReadable, IsReadable-log_of, outcome_at, seen_lem, ReadsTo-prefix,
}
use ground_control.Ledger.Race.ClaimStep.{kept_lem, add_claim-IsReadable}
use ground_control.Ledger.Bare.{bare, IsFold-bare, no_outcomes, IsSettled-map, IsSettled-Extends}
use ground_control.Ledger.Log.{IsLog}
use ground_control.Ledger.Race.Outcomes.{add_outcome-IsReadable}

pub Later-refl : (r : Repo) → Later r r
Later-refl r = record { kept = λ k v at. at; grown = omega arith; commits_kept = λ h k at. at }

Later-trans : (r s t : Repo) → Later r s → Later s t → Later r t
Later-trans r s t a b = record {
  kept = λ k v at. b.kept k v (a.kept k v at);
  grown = omega (arith, a.grown, b.grown);
  commits_kept = λ h c at. b.commits_kept h c (a.commits_kept h c at);
}

module _ (codec : Codec) (repository family : Text) where
  Step-Later : (r s : Repo) → Step codec repository family r s → Later r s
  unfolding add_claim add_outcome
  Step-Later r s (new_commits commits ext) = record {
    kept = λ k v at. at;
    grown = omega arith;
    commits_kept = ext;
  }
  Step-Later r s (new_claim {slot} {sha} c) = record {
    kept = kept_lem codec repository family r slot sha c.is_free;
    grown = omega arith;
    commits_kept = λ h k at. at;
  }
  Step-Later r s (new_outcome {slot} {sha} o) = record {
    kept = λ k v at. at;
    grown = omega arith;
    commits_kept = λ h k at. at;
  }

  Step-IsReadable :
      (r s : Repo)
      → Step codec repository family r s
      → IsReadable codec repository family r
      → IsReadable codec repository family s
  Step-IsReadable r s (new_commits commits ext) ok = record {
    reservations = map bare ok.reservations;
    claims_read =
        IsFold-bare codec repository family r.commits commits ext (claim_at r) (claim_at r)
          no_outcomes (λ k l u. refl) ok.claims_read;
    settled = IsSettled-map codec repository family commits (outcome_at r) ok.reservations (
        IsSettled-Extends codec repository family r.commits commits ext (outcome_at r)
          ok.reservations ok.settled);
    good_shape = ok.good_shape;
  }
  Step-IsReadable r s (new_claim {slot} {sha} c) ok =
      (add_claim-IsReadable codec repository family r slot sha ok c).0
  Step-IsReadable r s (new_outcome {slot} {sha} o) ok =
      add_outcome-IsReadable codec repository family r slot sha ok o

  pub Steps-IsReadable :
      (r s : Repo)
      → Steps codec repository family r s
      → IsReadable codec repository family r
      → IsReadable codec repository family s × Later r s
  Steps-IsReadable r s start ok = (ok, Later-refl r)
  Steps-IsReadable r t (one_more {s} steps step) ok =
      let (there, later) = Steps-IsReadable r s steps ok in
      (Step-IsReadable s t step there, Later-trans r s t later (Step-Later s t step))

  -- Where the log of a family can be read, it can be read after any steps of any runs: claims by
  -- callers who own nothing in the log that they have read in an earlier state, each planned from that
  -- log and at a slot that is still free, outcomes of the reservations that their callers own, and
  -- commits of anyone. It is a log in which each reservation may come after those before it, and it
  -- has every reservation of the first log, with the same slot, sequence and claim, before the new
  -- ones.
  pub log_of-Steps :
      (r s : Repo) (rs : List Reservation)
      → log_of codec repository family r ≡ read_ok rs
      → Steps codec repository family r s
      → (qs : List Reservation) × (new : List Reservation) × (log_of codec repository family s
          ≡ read_ok qs)
        × IsLog qs
        × (map bare qs ≡ new ++ map bare rs)
  log_of-Steps r s rs h steps =
      let (ok, later) =
        Steps-IsReadable r s steps (log_of-IsReadable codec repository family r rs h) in
      let (qs, h') = IsReadable-log_of codec repository family s ok in
      let (reads, _, _) = seen_lem codec repository family r s rs later h in
      let (whole, log, _) = seen_lem codec repository family s s qs (Later-refl s) h' in
      let (new, split) =
        ReadsTo-prefix codec repository family s _ _ (map bare rs) (map bare qs) reads whole
          later.grown in
      (qs, new, h', log, split)
