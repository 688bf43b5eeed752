-- ===== src/CiWatch/Rounds.antt =====
-- How the rounds of the loop of mcp/ground-control/lib/ci-watcher.js follow one another, and how the
-- set of the watched runs grows on the way.
use mathlib.Core.List.{Memᴰ}
use ground_control.Prelude.{
  ℕ, suc, ◌≡◌, true, false, some, none, List, [], ◌∷◌, ◌++◌, refl, arith, All, Bool-cases,
  if◌then◌else◌, ◌==◌, inl, inr, subst, leb, Option-cases, sym, ap,
}
use ground_control.CiWatch.Watch.{
  includes, join, Settings, discover, Loop, judged_round, settle, judge_reading, Tick, discover_ids,
  Judged, round, next_round, observe, Reading, ends_with, judge, unreadable, goes_on, observed_runs,
  pending_runs, head_of,
}
use ground_control.CiWatch.Run.{ListedRun, Observed, database_ids, select_runs}

-- Each of the runs is among those of the second list.
abbrev pub Covers : List ℕ → List ℕ → Type 0
Covers ids among = All (λ id. Memᴰ id among) ids

pub Covers-each : (ids among : List ℕ) → ((id : ℕ) → Memᴰ id ids → Memᴰ id among) → Covers ids among
Covers-each [] among h = tt
Covers-each (id ∷ ids) among h =
    (h id (Memᴰ.head refl), Covers-each ids among (λ other m. h other (Memᴰ.tail m)))

append_old : (id : ℕ) (xs ys : List ℕ) → Memᴰ id xs → Memᴰ id (xs ++ ys)
append_old id [] ys m = elim m [ ]
append_old id (x ∷ xs) ys (Memᴰ.head e) = Memᴰ.head e
append_old id (x ∷ xs) ys (Memᴰ.tail m) = Memᴰ.tail (append_old id xs ys m)

append_last : (id : ℕ) (xs : List ℕ) → Memᴰ id (xs ++ id ∷ [])
append_last id [] = Memᴰ.head refl
append_last id (x ∷ xs) = Memᴰ.tail (append_last id xs)

includes_lem : (ids : List ℕ) (id : ℕ) → includes ids id ≡ true → Memᴰ id ids
unfolding includes
includes_lem [] id h = cc
includes_lem (n ∷ ids) id h = elim (Bool-cases (n == id)) [
  | inl same ↦ Memᴰ.head (ground (arith, same))
  | inr other ↦ Memᴰ.tail (includes_lem ids id (ground (arith, other, h)))
]

join_old : (id : ℕ) (watched ids : List ℕ) → Memᴰ id watched → Memᴰ id (join watched ids)
unfolding join
join_old id watched [] m = m
join_old id watched (n ∷ ids) m = elim (Bool-cases (includes watched n)) [
  | inl there ↦ rw there (join_old id watched ids m)
  | inr new ↦ rw new (join_old id (watched ++ n ∷ []) ids (append_old id watched (n ∷ []) m))
]

join_new : (id : ℕ) (watched ids : List ℕ) → Memᴰ id ids → Memᴰ id (join watched ids)
unfolding join
join_new id watched [] m = elim m [ ]
join_new id watched (n ∷ ids) (Memᴰ.tail m) =
    join_new id (if includes watched n then watched else watched ++ n ∷ []) ids m
join_new id watched (n ∷ ids) (Memᴰ.head e) = elim (Bool-cases (includes watched n)) [
  | inl there ↦
      rw there (
        join_old id watched ids
          (subst (λ x. Memᴰ x watched) (sym e) (includes_lem watched n there)))
  | inr new ↦ rw new (
      join_old id (watched ++ n ∷ []) ids
        (subst (λ x. Memᴰ x (watched ++ n ∷ [])) (sym e) (append_last n watched)))
]

-- The rounds from one state of the loop to another, each with the number of the tick that it reads.
pub data Reaches (c : Settings) (ticks : ℕ → Tick) : Loop → ℕ → Loop → ℕ → Type 0 where
  here : {l : Loop} {k : ℕ} → Reaches c ticks l k l k
  goes_on_to :
      {l l' m : Loop} {k n : ℕ}
      → round c l (ticks k) ≡ next_round l'
      → Reaches c ticks l' (suc k) m n
      → Reaches c ticks l k m n

pub discover_old :
    (c : Settings) (l l' : Loop) (t : Tick)
    → discover c l t ≡ some l'
    → (id : ℕ) → Memᴰ id l.watched
    → Memᴰ id l'.watched
unfolding discover discover_ids
discover_old c l l' t h id m = elim (Bool-cases l.discovery_closed) [
  | inl closed ↦
      let same : l ≡ l' = ground (arith, closed, h) in
      subst (λ (x : Loop). Memᴰ id x.watched) same m
  | inr opened ↦ elim (Option-cases t.listed) [
    | inl fails ↦ absurd (ground (arith, opened, fails, h))
    | inr (runs, found) ↦
        let same : discover_ids c l t runs ≡ l' = ground (arith, opened, found, h) in
        subst (λ (x : Loop). Memᴰ id x.watched) same
          (join_old id l.watched (database_ids (select_runs runs (head_of c.head))) m)
  ]
]

-- While the discovery is open, a round has a listing, whose runs of the head it watches; the
-- discovery then closes by the clock.
pub discover_open :
    (c : Settings) (l l' : Loop) (t : Tick)
    → discover c l t ≡ some l'
    → l.discovery_closed ≡ false
    → (runs : List ListedRun) × (t.listed ≡ some runs)
      × (l'.discovery_closed ≡ leb c.deadline_ms t.before_ms)
      × ((id : ℕ) → Memᴰ id (database_ids (select_runs runs (head_of c.head))) → Memᴰ id l'.watched)
unfolding discover discover_ids
discover_open c l l' t h opened = elim (Option-cases t.listed) [
  | inl fails ↦ absurd (ground (arith, opened, fails, h))
  | inr (runs, found) ↦
      let same : discover_ids c l t runs ≡ l' = ground (arith, opened, found, h) in
      (
        runs,
        found,
        ap (λ (x : Loop). x.discovery_closed) (sym same),
        (λ id m. subst (λ (x : Loop). Memᴰ id x.watched) same (join_new id l.watched _ m)),
      )
]

-- Only the discovery changes what a round watches.
abbrev IsAlike : Loop → Loop → Type 0
IsAlike l l' = (l'.discovery_closed ≡ l.discovery_closed) × (l'.watched ≡ l.watched)

judged-IsAlike : (l l' : Loop) (v : Judged) → judged_round l v ≡ next_round l' → IsAlike l l'
unfolding judged_round
judged-IsAlike l l' (ends_with v) h = cc
judged-IsAlike l l' (goes_on first) h = (cc, cc)

settle-IsAlike :
    (c : Settings) (l l' : Loop) (t : Tick) (os waits : List Observed)
    → settle c l t os waits ≡ next_round l'
    → IsAlike l l'
unfolding settle
settle-IsAlike c l l' t os [] h = (ground arith, ground arith)
settle-IsAlike c l l' t os (p ∷ ps) h =
    judged-IsAlike l l' (judge c l.first_queued t none (p ∷ ps)) h

reading-IsAlike :
    (c : Settings) (l l' : Loop) (t : Tick) (r : Reading)
    → judge_reading c l t r ≡ next_round l'
    → IsAlike l l'
unfolding judge_reading
reading-IsAlike c l l' t (unreadable v) h = cc
reading-IsAlike c l l' t (observed_runs os) h =
    settle-IsAlike c l l' t os (pending_runs os) (ground arith)

-- A round that goes on has discovered what the next one starts with.
pub round-discovers :
    (c : Settings) (l l' : Loop) (t : Tick)
    → round c l t ≡ next_round l'
    → (m : Loop) × (discover c l t ≡ some m)
      × (l'.discovery_closed ≡ m.discovery_closed)
      × (l'.watched ≡ m.watched)
unfolding round
round-discovers c l l' t h = elim (Option-cases (discover c l t)) [
  | inl fails ↦ absurd (ground (arith, fails, h))
  | inr (m, found) ↦
      let (closed, watched) =
        reading-IsAlike c m l' t (observe c t m.watched) (ground (arith, found, h)) in
      (m, found, closed, watched)
]
