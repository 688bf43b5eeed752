-- ===== src/Ledger/Race/References.antt =====
-- `listRefs` and `createRef` against `foldReleaseLedger` of
-- mcp/ground-control/lib/release-identity-ledger.js: the states of Race are those of the references.
use ground_control.Prelude.{
  refl, arith, ℕ, [], ◌≡◌, List, ◌∷◌, none, suc, all, Option, length, is_some, zero, ◌++◌, ◌≤◌, ap,
  ◌<◌, some, ◌∙◌, Bool, leb, ◌&&◌, true, false, Bool-cases, ◌==◌, inl, sym, inr,
}
use ground_control.Ledger.Fold.{
  ◌>>=◌, Commit, slot_of, has_slots, Slots, collect, Classified, set_slot, parse_entry, RefEntry,
  read_ok, fold_release_ledger, classify_refs, has_good_shape, add_ref, expected, at_target, guard,
  Read, fold_slots,
}
use ground_control.Ledger.Event.{Codec, Sha, release_ledger_slots_max}
use ground_control.Prelude.Text.{Text}
use ground_control.Ledger.Names.{RefKind, ledger_namespace, release_ledger_ref}
use ground_control.Ledger.Race.{log_of, add_claim, add_outcome, Repo}
use ground_control.Ledger.Log.{read_inj, bind-read_ok, bind_at}
use ground_control.Ledger.RefNames.{parse_ledger_ref-release_ledger_ref}
use ground_control.Ledger.Race.Slots.{none≢some}
use ground_control.Ledger.Race.Outcomes.{if_true, if_false}

slot_of-set_slot :
    (k s : ℕ) (v : Sha) (m : Slots) → slot_of k (set_slot s v m) ≡ slot_of k ((s, v) ∷ m)
unfolding slot_of set_slot
slot_of-set_slot k s v [] = refl
slot_of-set_slot k s v ((j, w) ∷ m) = ground (arith, slot_of-set_slot k s v m)

length-set_slot :
    (s : ℕ) (v : Sha) (m : Slots) → slot_of s m ≡ none → length (set_slot s v m) ≡ suc (length m)
unfolding slot_of set_slot
length-set_slot s v [] free = refl
length-set_slot s v ((j, w) ∷ m) free = ground (arith, free, length-set_slot s v m)

has_slots-same :
    (n : ℕ) (m m' : Slots) → ((k : ℕ) → slot_of k m ≡ slot_of k m') → has_slots n m ≡ has_slots n m'
unfolding has_slots
has_slots-same zero m m' same = refl
has_slots-same (suc n) m m' same = rw (has_slots-same n m m' same, same (suc n)) refl

owned-same :
    (os m m' : Slots)
    → ((k : ℕ) → slot_of k m ≡ slot_of k m')
    → all (λ o. is_some (slot_of o.0 m)) os ≡ all (λ o. is_some (slot_of o.0 m')) os
owned-same [] m m' same = refl
owned-same (o ∷ os) m m' same = rw (same o.0, owned-same os m m' same) refl

and_swap : (a b c : Bool) → (a && (b && c)) ≡ (b && (a && c))
and_swap a b c = ground arith

owned-set_slot :
    (s : ℕ) (v : Sha) (os m : Slots)
    → slot_of s os ≡ none
    → all (λ o. is_some (slot_of o.0 m)) (set_slot s v os)
      ≡ all (λ o. is_some (slot_of o.0 m)) ((s, v) ∷ os)
unfolding slot_of set_slot
owned-set_slot s v [] m free = refl
owned-set_slot s v ((j, w) ∷ os) m free = elim (Bool-cases (j == s)) [
  | inl same ↦ absurd (none≢some w (sym free ∙ if_true (j == s) (some w) (slot_of s os) same))
  | inr apart ↦
      let rest = sym (if_false (j == s) (some w) (slot_of s os) apart) ∙ free in
      ap (all (λ o. is_some (slot_of o.0 m)))
        (if_false (j == s) ((j, v) ∷ os) ((j, w) ∷ set_slot s v os) apart)
      ∙ ap (λ b. is_some (slot_of j m) && b) (owned-set_slot s v os m rest)
      ∙ and_swap (is_some (slot_of j m)) (is_some (slot_of s m)) _
]

-- The references of a kind, and a state with one more of them.
unfoldable pub entries : RefKind → Classified → Slots
entries RefKind.claims c = c.claims
entries RefKind.outcomes c = c.outcomes

unfoldable pub add_entry : RefKind → ℕ → Sha → Repo → Repo
unfolding add_claim add_outcome
add_entry RefKind.claims slot sha r = add_claim slot sha r
add_entry RefKind.outcomes slot sha r = add_outcome slot sha r

collect-append :
    (namespace : Text) (c d : Classified) (refs : List RefEntry) (r : RefEntry)
    → collect namespace c refs ≡ read_ok d
    → collect namespace c (refs ++ r ∷ []) ≡ collect namespace d (r ∷ [])
unfolding collect
collect-append namespace c d [] r h = ap (λ x. collect namespace x (r ∷ [])) (read_inj c d h)
collect-append namespace c d (q ∷ refs) r h =
    let (e, e₁, h₁) = bind-read_ok (expected (parse_entry namespace q)) _ h in
    bind_at _ e e₁ ∙ collect-append namespace (add_ref c e.0 e.1) d refs r h₁

-- The entry of a reference that has been created is classified as its kind and slot.
collect-created :
    (family : Text) (kind : RefKind) (slot : ℕ) (sha : Sha) (c d : Classified)
    (refs : List RefEntry)
    → collect (ledger_namespace family) c refs ≡ read_ok d
    → 1 ≤ slot
    → slot < 100000
    → collect
        (ledger_namespace family)
        c
        (refs ++ record { ref = release_ledger_ref family kind slot; target = some sha } ∷ [])
      ≡ read_ok (add_ref d (kind, slot) sha)
unfolding collect parse_entry
collect-created family kind slot sha c d refs h one small =
    let r : RefEntry = record { ref = release_ledger_ref family kind slot; target = some sha } in
    let parsed =
      ap (λ k. expected (at_target k (some sha)))
        (parse_ledger_ref-release_ledger_ref family kind slot one small) in
    collect-append (ledger_namespace family) c d refs r h
    ∙ bind_at (λ e. collect (ledger_namespace family) (add_ref d e.0 e.1) []) ((kind, slot), sha)
        parsed

guard_lem :
    {B : Type 0} (b : Bool) (c : Classified) (f : Classified → Read B)
    → (guard b >>= (λ _. read_ok c) >>= f) ≡ (guard b >>= λ _. f c)
guard_lem true c f = refl
guard_lem false c f = refl

abbrev pub no_refs : Classified
no_refs = record { claims = []; outcomes = [] }

module _ (codec : Codec) (repository family : Text) (commits : Sha → Option Commit) where
  fold_release_ledger-log_of :
      (refs : List RefEntry) (c : Classified)
      → collect (ledger_namespace family) no_refs refs ≡ read_ok c
      → fold_release_ledger codec repository family commits refs
        ≡ log_of codec repository family (record { refs = c; commits = commits })
  unfolding fold_release_ledger classify_refs log_of
  fold_release_ledger-log_of refs c h =
      ap
        (λ x. (x >>= λ c'. guard (has_good_shape c') >>= λ _. read_ok c') >>= λ c'.
          fold_slots codec repository family commits (λ n. slot_of n c'.claims)
            (λ n. slot_of n c'.outcomes) (length c'.claims))
        h
      ∙ guard_lem (has_good_shape c) c _

  log_of-same :
      (ms ms' os os' : Slots) (size : length ms ≡ length ms')
      (same : (k : ℕ) → slot_of k ms ≡ slot_of k ms')
      (same' : (k : ℕ) → slot_of k os ≡ slot_of k os')
      → all (λ o. is_some (slot_of o.0 ms)) os ≡ all (λ o. is_some (slot_of o.0 ms')) os'
      → log_of codec repository family
          (record { refs = record { claims = ms; outcomes = os }; commits = commits })
        ≡ log_of codec repository family
            (record { refs = record { claims = ms'; outcomes = os' }; commits = commits })
  unfolding log_of has_good_shape
  log_of-same ms ms' os os' size same same' owned =
      let slots : has_slots (length ms) ms ≡ has_slots (length ms') ms' =
        ap (λ n. has_slots n ms) size ∙ has_slots-same (length ms') ms ms' same in
      λ i. guard (leb (size i) release_ledger_slots_max && slots i && owned i) >>= λ _.
      fold_slots codec repository family commits (λ n. same n i) (λ n. same' n i) (size i)

  -- Where the references of a family are classified, the fold of them with a further reference, of a
  -- claim or an outcome at a free slot from 1 to 99999, is the log of the state with that entry.
  pub fold_release_ledger-add_entry :
      (refs : List RefEntry) (c : Classified) (kind : RefKind) (slot : ℕ) (sha : Sha)
      → collect (ledger_namespace family) no_refs refs ≡ read_ok c
      → slot_of slot (entries kind c) ≡ none
      → 1 ≤ slot
      → slot < 100000
      → fold_release_ledger codec repository family commits
          (refs ++ record { ref = release_ledger_ref family kind slot; target = some sha } ∷ [])
        ≡ log_of codec repository family
            (add_entry kind slot sha (record { refs = c; commits = commits }))
  unfolding add_entry entries add_claim add_outcome add_ref
  fold_release_ledger-add_entry refs c RefKind.claims slot sha h free one small =
      fold_release_ledger-log_of _ _
        (collect-created family RefKind.claims slot sha no_refs c refs h one small)
      ∙ log_of-same (set_slot slot sha c.claims) ((slot, sha) ∷ c.claims) c.outcomes c.outcomes
          (length-set_slot slot sha c.claims free) (λ k. slot_of-set_slot k slot sha c.claims)
          (λ k. refl) (owned-same c.outcomes _ _ (λ k. slot_of-set_slot k slot sha c.claims))
  fold_release_ledger-add_entry refs c RefKind.outcomes slot sha h free one small =
      fold_release_ledger-log_of _ _
        (collect-created family RefKind.outcomes slot sha no_refs c refs h one small)
      ∙ log_of-same c.claims c.claims (set_slot slot sha c.outcomes) ((slot, sha) ∷ c.outcomes) refl
          (λ k. refl) (λ k. slot_of-set_slot k slot sha c.outcomes)
          (owned-set_slot slot sha c.outcomes c.claims free)
