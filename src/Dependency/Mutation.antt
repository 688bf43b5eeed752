-- ===== src/Dependency/Mutation.antt =====
-- What a mutation of mcp/ground-control/lib/issue-dependency.js reports, whatever GitHub answers.
use ground_control.Prelude.{
  ℕ, ◌≡◌, ◌≢◌, ◌⊎◌, Bool, true, false, Option, none, List, refl, arith, Bool-cases, inl, inr,
}
use ground_control.Prelude.Text.{Text}
use ground_control.Dependency.Issue.{Action, Refusal, Issue, Call, Raw, views, has_blocker}
use ground_control.Dependency.Tool.{
  Api, Result, ok, refuse, already_satisfied, changed, reconciled, Mutation, entries_of,
  failed_write, settle_mutation, write, write_and_settle, mutate_from, run_mutation, agrees,
  desired,
}

-- The report is what the last read of the dependencies showed.
pub record Observed (to_lower : Text → Text) (key : Text) (want : Bool) (id : ℕ)
    (listed : Call (Option (List Raw))) (m : Mutation) : Type 0 where
  pub entries : List Issue
  pub read_back : entries_of listed ≡ ok entries
  pub holds : has_blocker to_lower key entries id ≡ want
  pub shown : m.blocked_by ≡ views to_lower key entries

agrees→eq : (a b : Bool) → agrees a b ≡ true → a ≡ b
unfolding agrees
agrees→eq true b h = ground arith
agrees→eq false b h = ground arith

settled :
    (f : Text → Text) (key : Text) (want : Bool) (id : ℕ) (e : Option Refusal)
    (listed : Call (Option (List Raw))) (m : Mutation)
    → settle_mutation f key want id e (entries_of listed) ≡ ok m
    → Observed f key want id listed m
      × (((m.outcome ≡ changed) × (e ≡ none)) ⊎ ((m.outcome ≡ reconciled) × (e ≢ none)))
unfolding settle_mutation
settled f key want id e listed m h = by_entries (entries_of listed) refl h
  where
    by_entries :
        (r : Result (List Issue))
        → entries_of listed ≡ r
        → settle_mutation f key want id e r ≡ ok m
        → Observed f key want id listed m
          × (((m.outcome ≡ changed) × (e ≡ none)) ⊎ ((m.outcome ≡ reconciled) × (e ≢ none)))
    by_entries (refuse x) same h = cc
    by_entries (ok after) same h = (
      record {
        entries = after;
        read_back = same;
        holds = agrees→eq (has_blocker f key after id) want (ground arith);
        shown = ground arith;
      },
      ground arith,
    )

module _ (api : Api) (f : Text → Text) (key : Text) where
  open api use {World, list_blocked_by}

  -- What a reported success rests on: `w` is the world after the first read `listed`, `end` the one
  -- in which the tool returns.
  abbrev pub IsReported :
      Action → ℕ → ℕ → World → Call (Option (List Raw)) → World → Mutation → Type 0
  IsReported action number id w listed end m =
      let written = write api f key action number id w in
      let second = list_blocked_by number written.0 in
      ((m.outcome ≡ already_satisfied) × (end ≡ w) × Observed f key (desired action) id listed m)
      ⊎ ((end ≡ second.0)
          × Observed f key (desired action) id second.1 m
          × (((m.outcome ≡ changed) × (failed_write written.1 ≡ none))
              ⊎ ((m.outcome ≡ reconciled) × (failed_write written.1 ≢ none))))

  mutate_from-IsReported :
      (action : Action) (number id : ℕ) (w : World) (listed : Call (Option (List Raw)))
      (r : Result (List Issue)) (m : Mutation)
      → entries_of listed ≡ r
      → (mutate_from api f key action number id w r).1 ≡ ok m
      → IsReported action number id w listed (mutate_from api f key action number id w r).0 m
  unfolding mutate_from write_and_settle
  mutate_from-IsReported action number id w listed (refuse e) m same h = cc
  mutate_from-IsReported action number id w listed (ok before) m same h =
      elim (Bool-cases (agrees (has_blocker f key before id) (desired action))) [
        | inl already ↦ inl (
          ground arith,
          ground arith,
          record {
            entries = before;
            read_back = same;
            holds = agrees→eq (has_blocker f key before id) (desired action) already;
            shown = ground arith;
          },
        )
        | inr missing ↦
            let written = write api f key action number id w in
            let (seen, how) =
              settled f key (desired action) id (failed_write written.1)
                (list_blocked_by number written.0).1 m (ground arith) in
            inr (ground arith, seen, how)
      ]

  -- A mutation that reports success has read the wanted state back, and shows that read: with
  -- `already_satisfied` from its first read, after which nothing was written, with `changed` from
  -- the read after a write that succeeded, with `reconciled` from the read after one that failed.
  pub run_mutation-IsReported :
      (action : Action) (number id : ℕ) (w : World) (m : Mutation)
      → (run_mutation api f key action number id w).1 ≡ ok m
      → IsReported action number id
          (list_blocked_by number w).0
          (list_blocked_by number w).1
          (run_mutation api f key action number id w).0
          m
  unfolding run_mutation
  run_mutation-IsReported action number id w m h =
      mutate_from-IsReported action number id (list_blocked_by number w).0
        (list_blocked_by number w).1 (entries_of (list_blocked_by number w).1) m refl h
