-- ===== src/CiWatch/Verdict.antt =====
-- What a success of the watch in mcp/ground-control/lib/ci-watcher.js rests on.
use ground_control.Prelude.{
  ℕ, zero, suc, ◌≤◌, ◌≡◌, ◌⊎◌, true, false, Option, some, List, refl, arith, Bool-cases, inl, inr,
  subst, sym, ◌∙◌,
}
use ground_control.CiWatch.Run.{Observed, ListedRun, database_ids, select_runs}
use ground_control.CiWatch.Watch.{
  Settings, Tick, Verdict, succeeded, Loop, discover, round, watch, Round, finished, next_round,
  head_of,
}
use ground_control.CiWatch.Rounds.{
  Reaches, round-discovers, Covers, discover_open, Covers-each, discover_old,
}
use mathlib.Core.List.{Memᴰ}
use ground_control.CiWatch.Passed.{Passed, run_ids, round-Passed}

-- A round of the watch listed the runs at or after the deadline of the registration window, and all
-- the runs of the head in that listing are among `ids`.
pub record IsListed (c : Settings) (l : Loop) (ticks : ℕ → Tick) (k last : ℕ) (ids : List ℕ)
    : Type 0 where
  pub tick : ℕ
  pub at : Loop
  pub in_time : tick ≤ last
  pub reached : Reaches c ticks l k at tick
  pub opened : at.discovery_closed ≡ false
  pub late : c.deadline_ms ≤ (ticks tick).before_ms
  pub runs : List ListedRun
  pub listed : (ticks tick).listed ≡ some runs
  pub all_runs : Covers (database_ids (select_runs runs (head_of c.head))) ids

-- The rounds of the watch from tick `k` reach one, at tick `last`, that ends with the success, and
-- in it all runs passed that the watch has discovered by then: those it began with are among them,
-- and those of the listing by which the discovery closed, unless the watch began with it closed.
pub record IsGreenWatch (c : Settings) (l : Loop) (ticks : ℕ → Tick) (k : ℕ) (qs : List Observed)
    : Type 0 where
  pub last : ℕ
  pub before : Loop
  pub reached : Reaches c ticks l k before last
  pub ends : round c before (ticks last) ≡ finished (succeeded qs)
  pub final : Loop
  pub discovered : discover c before (ticks last) ≡ some final
  pub passed : Passed c (ticks last) final qs
  pub from_start : Covers l.watched (run_ids qs)
  pub closing : (l.discovery_closed ≡ true) ⊎ IsListed c l ticks k last (run_ids qs)

-- How the last round of a run, and a round before it, say where the discovery closed.
closed_in :
    (c : Settings) (l m : Loop) (ticks : ℕ → Tick) (k last : ℕ) (ids : List ℕ)
    → k ≤ last
    → discover c l (ticks k) ≡ some m
    → m.discovery_closed ≡ true
    → ((id : ℕ) → Memᴰ id m.watched → Memᴰ id ids)
    → (l.discovery_closed ≡ true) ⊎ IsListed c l ticks k last ids
closed_in c l m ticks k last ids in_time found closed keeps = elim (Bool-cases l.discovery_closed) [
  | inl was ↦ inl was
  | inr opened ↦
      let (runs, listed, by_clock, joins) = discover_open c l m (ticks k) found opened in
      inr (record {
        tick = k;
        at = l;
        in_time = in_time;
        reached = Reaches.here;
        opened = opened;
        late = ground (arith, by_clock, closed);
        runs = runs;
        listed = listed;
        all_runs = Covers-each _ ids (λ id e. keeps id (joins id e));
      })
]

Reaches-le :
    (c : Settings) (ticks : ℕ → Tick) (l m : Loop) (k n : ℕ) → Reaches c ticks l k m n → k ≤ n
Reaches-le c ticks l m k n Reaches.here = omega arith
Reaches-le c ticks l m k n (Reaches.goes_on_to {l' = l'} e rest) =
    let le = Reaches-le c ticks l' m (suc k) n rest in omega arith

-- A member of the runs that a loop watches is in every later answer.
abbrev IsKept : Loop → List Observed → Type 0
IsKept l qs = (id : ℕ) → Memᴰ id l.watched → Memᴰ id (run_ids qs)

last_round :
    (c : Settings) (l : Loop) (ticks : ℕ → Tick) (k : ℕ) (qs : List Observed)
    → round c l (ticks k) ≡ finished (succeeded qs)
    → IsGreenWatch c l ticks k qs × IsKept l qs
last_round c l ticks k qs e =
    let (m, found, passed) = round-Passed c l (ticks k) qs e in
    let keeps : IsKept m qs = λ id i. subst (λ x. Memᴰ id x) (sym passed.whole_set) i in
    let kept : IsKept l qs = λ id i. keeps id (discover_old c l m (ticks k) found id i) in
    (
      record {
        last = k;
        before = l;
        reached = Reaches.here;
        ends = e;
        final = m;
        discovered = found;
        passed = passed;
        from_start = Covers-each l.watched (run_ids qs) kept;
        closing = closed_in c l m ticks k k (run_ids qs) (omega arith) found passed.closed keeps;
      },
      kept,
    )

-- A listing of a later round is one of the watch.
one_earlier :
    (c : Settings) (l l' : Loop) (ticks : ℕ → Tick) (k last : ℕ) (ids : List ℕ)
    → round c l (ticks k) ≡ next_round l'
    → IsListed c l' ticks (suc k) last ids
    → IsListed c l ticks k last ids
one_earlier c l l' ticks k last ids e later = record {
  tick = later.tick;
  at = later.at;
  in_time = later.in_time;
  reached = Reaches.goes_on_to e later.reached;
  opened = later.opened;
  late = later.late;
  runs = later.runs;
  listed = later.listed;
  all_runs = later.all_runs;
}

earlier_round :
    (c : Settings) (l l' : Loop) (ticks : ℕ → Tick) (k : ℕ) (qs : List Observed)
    → round c l (ticks k) ≡ next_round l'
    → IsGreenWatch c l' ticks (suc k) qs × IsKept l' qs
    → IsGreenWatch c l ticks k qs × IsKept l qs
earlier_round c l l' ticks k qs e (later, keeps') =
    let (m, found, closed, watched) = round-discovers c l l' (ticks k) e in
    let keeps : IsKept m qs = λ id i. keeps' id (subst (λ x. Memᴰ id x) (sym watched) i) in
    let kept : IsKept l qs = λ id i. keeps id (discover_old c l m (ticks k) found id i) in
    let le = Reaches-le c ticks l' later.before (suc k) later.last later.reached in
    (
      record {
        last = later.last;
        before = later.before;
        reached = Reaches.goes_on_to e later.reached;
        ends = later.ends;
        final = later.final;
        discovered = later.discovered;
        passed = later.passed;
        from_start = Covers-each l.watched (run_ids qs) kept;
        closing = elim later.closing [
          | inl closed' ↦
              closed_in c l m ticks k later.last (run_ids qs) (omega arith) found
                (sym closed ∙ closed') keeps
          | inr listed ↦ inr (one_earlier c l l' ticks k later.last (run_ids qs) e listed)
        ];
      },
      kept,
    )

green_round :
    (c : Settings) (l : Loop) (ticks : ℕ → Tick) (k : ℕ) (qs : List Observed) (r : Round)
    (rest : Loop → Option Verdict)
    → round c l (ticks k) ≡ r
    → ((l' : Loop)
        → rest l' ≡ some (succeeded qs)
        → IsGreenWatch c l' ticks (suc k) qs × IsKept l' qs)
    → elim r [ finished v ↦ some v | next_round l' ↦ rest l' ] ≡ some (succeeded qs)
    → IsGreenWatch c l ticks k qs × IsKept l qs
green_round c l ticks k qs (finished v) rest e later h = last_round c l ticks k qs (cc)
green_round c l ticks k qs (next_round l') rest e later h =
    earlier_round c l l' ticks k qs e (later l' h)

watch_lem :
    (fuel : ℕ) (c : Settings) (l : Loop) (ticks : ℕ → Tick) (k : ℕ) (qs : List Observed)
    → watch fuel c l ticks k ≡ some (succeeded qs)
    → IsGreenWatch c l ticks k qs × IsKept l qs
unfolding watch
watch_lem zero c l ticks k qs h = cc
watch_lem (suc fuel) c l ticks k qs h =
    green_round c l ticks k qs (round c l (ticks k)) (λ l'. watch fuel c l' ticks (suc k)) refl
      (λ l'. watch_lem fuel c l' ticks (suc k) qs) h

-- A success of the watch is given by a round that the rounds of the run reach. In that round the
-- runs of the answer are exactly the runs watched by then, in order; each of them was read anew,
-- completed with the conclusion `success` and, as far as its snapshot names a head, on the bound
-- head. All runs that the watch began with are among them; and unless it began with the discovery
-- closed, a round listed the runs at or after the deadline of the registration window, and all runs
-- of the head in that listing are among them too.
pub watch-green :
    (fuel : ℕ) (c : Settings) (l : Loop) (ticks : ℕ → Tick) (k : ℕ) (qs : List Observed)
    → watch fuel c l ticks k ≡ some (succeeded qs)
    → IsGreenWatch c l ticks k qs
watch-green fuel c l ticks k qs h = (watch_lem fuel c l ticks k qs h).0
