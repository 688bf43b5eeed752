-- ===== src/Delivery/Trusted.antt =====
-- What `readTrustedDeliveryReadiness` of mcp/ground-control/lib/delivery-readiness.js accepts.
use mathlib.Core.List.{Memᴰ}
use mathlib.Core.List.Memᴰ
use ground_control.Prelude.{
  refl, arith, List, Bool, ◌≢◌, filter, get_last?, ◌≡◌, ◌≤◌, true, some, ◌∷◌, Bool-cases, [], inl,
  ap, subst, inr, ◌∙◌, Option, ◌||◌, false, sym, ◌⊎◌, suc, none, ltb, ℕ, if◌then◌else◌,
}
use ground_control.Delivery.Readiness.{
  Refusal, stage, Found, has_digest, count_digests, refused, Answer, accepted, Outside, choose,
  read_markers, is_by_trusted, accept, is_supported, is_decodable, is_at, collect_markers,
  collect_readiness_markers, missing, read_trusted_delivery_readiness, conflicting, untrusted,
  Comment, version_unsupported, Marker, names, corrupt, head_mismatch, is_parsed,
}
use ground_control.Ledger.Race.Slots.{none≢some, true≢false}
use ground_control.Prelude.Text.{option_eq_iff, Text, option_eq}
use ground_control.Ledger.Race.Outcomes.{if_true, if_false}
use ground_control.Ledger.Validity.{some_inj}
use ground_control.Ledger.Race.Claims.{ltb-false}

not_accepted : {e : Refusal} (f : Found) → refused e ≢ accepted f
not_accepted f h = ground (arith, h)

-- What has passed a stage came from its list.
stage-accepted :
    (e : Refusal) (fs : List Found) (next : List Found → Answer) (f : Found)
    → stage e fs next ≡ accepted f
    → next fs ≡ accepted f
unfolding stage
stage-accepted e [] next f h = absurd (not_accepted f h)
stage-accepted e (g ∷ fs) next f h = h

filter-Memᴰ :
    (p : Found → Bool) (f : Found) (fs : List Found)
    → Memᴰ f (filter p fs)
    → Memᴰ f fs × (p f ≡ true)
filter-Memᴰ p f [] m = elim m [ ]
filter-Memᴰ p f (g ∷ fs) m = elim (Bool-cases (p g)) [
  | inl good ↦
      elim (Memᴰ.cases_cons
        (subst (Memᴰ f) (if_true (p g) (g ∷ filter p fs) (filter p fs) good) m)) [
          | inl e ↦ (Memᴰ.head e, ap p e ∙ good)
          | inr m' ↦ let (there, holds) = filter-Memᴰ p f fs m' in (Memᴰ.tail there, holds)
        ]
  | inr bad ↦
      let (there, holds) =
        filter-Memᴰ p f fs
          (subst (Memᴰ f) (if_false (p g) (g ∷ filter p fs) (filter p fs) bad) m) in
      (Memᴰ.tail there, holds)
]

Memᴰ-filter :
    (p : Found → Bool) (f : Found) (fs : List Found) → Memᴰ f fs → p f ≡ true → Memᴰ f (filter p fs)
Memᴰ-filter p f [] m h = elim m [ ]
Memᴰ-filter p f (g ∷ fs) (Memᴰ.head e) h =
    let good : p g ≡ true = ap p (sym e) ∙ h in
    subst (Memᴰ f) (sym (if_true (p g) (g ∷ filter p fs) (filter p fs) good)) (Memᴰ.head e)
Memᴰ-filter p f (g ∷ fs) (Memᴰ.tail m) h =
    let rest = Memᴰ-filter p f fs m h in
    elim (Bool-cases (p g)) [
      | inl good ↦
          subst (Memᴰ f) (sym (if_true (p g) (g ∷ filter p fs) (filter p fs) good)) (Memᴰ.tail rest)
      | inr bad ↦ subst (Memᴰ f) (sym (if_false (p g) (g ∷ filter p fs) (filter p fs) bad)) rest
    ]

accept_lem : (o : Option Found) (f : Found) → accept o ≡ accepted f → o ≡ some f
unfolding accept
accept_lem none f h = absurd (not_accepted f h)
accept_lem (some g) f h = cc

last_step :
    (g f : Found) (o : Option Found)
    → ◌≡◌ {A = Option Found} (elim o [ none ↦ some g | some y ↦ some y ]) (some f)
    → (f ≡ g) ⊎ (o ≡ some f)
last_step g f none h = inl (sym (some_inj g f h))
last_step g f (some y) h = inr h

get_last?-Memᴰ : (f : Found) (fs : List Found) → get_last? fs ≡ some f → Memᴰ f fs
get_last?-Memᴰ f [] h = absurd (none≢some f h)
get_last?-Memᴰ f (g ∷ fs) h = elim (last_step g f (get_last? fs) h) [
  | inl e ↦ Memᴰ.head e
  | inr last ↦ Memᴰ.tail (get_last?-Memᴰ f fs last)
]

or_cases : (a b : Bool) → (a || b) ≡ true → (a ≡ true) ⊎ (b ≡ true)
or_cases true b h = inl refl
or_cases false b h = inr h

has_digest-Memᴰ :
    (d : Option Text) (fs : List Found)
    → has_digest d fs ≡ true
    → (f : Found) × Memᴰ f fs × (f.marker.digest ≡ d)
unfolding has_digest
has_digest-Memᴰ d [] h = absurd (true≢false (sym h))
has_digest-Memᴰ d (f ∷ fs) h = elim (or_cases (option_eq d f.marker.digest) (has_digest d fs) h) [
  | inl here ↦ (f, Memᴰ.head refl, sym ((option_eq_iff d f.marker.digest).0 here))
  | inr there ↦ let (g, m, e) = has_digest-Memᴰ d fs there in (g, Memᴰ.tail m, e)
]

count_digests-known :
    (f : Found) (fs : List Found)
    → has_digest f.marker.digest fs ≡ true
    → count_digests (f ∷ fs) ≡ count_digests fs
unfolding count_digests
count_digests-known f fs h = if_true (has_digest f.marker.digest fs) _ _ h

count_digests-new :
    (f : Found) (fs : List Found)
    → has_digest f.marker.digest fs ≡ false
    → count_digests (f ∷ fs) ≡ suc (count_digests fs)
unfolding count_digests
count_digests-new f fs h = if_false (has_digest f.marker.digest fs) _ _ h

count_digests-zero : (fs : List Found) → count_digests fs ≡ 0 → (f : Found) → Memᴰ f fs → ⊥
count_digests-zero [] h f m = elim m [ ]
count_digests-zero (g ∷ fs) h f m = elim (Bool-cases (has_digest g.marker.digest fs)) [
  | inl known ↦
      let (k, m', _) = has_digest-Memᴰ g.marker.digest fs known in
      count_digests-zero fs (sym (count_digests-known g fs known) ∙ h) k m'
  | inr new ↦ let e = sym (count_digests-new g fs new) ∙ h in omega (arith, e)
]

-- A member of a list whose first digest is known has its digest in the rest.
in_rest :
    (k : Found) (fs : List Found) (f : Found)
    → has_digest k.marker.digest fs ≡ true
    → Memᴰ f (k ∷ fs)
    → (g : Found) × Memᴰ g fs × (g.marker.digest ≡ f.marker.digest)
in_rest k fs f known (Memᴰ.head e) =
    let (g, m, same) = has_digest-Memᴰ k.marker.digest fs known in
    (g, m, same ∙ ap (λ x. x.marker.digest) (sym e))
in_rest k fs f known (Memᴰ.tail m) = (f, m, refl)

only_head :
    (k : Found) (fs : List Found) (f : Found) → count_digests fs ≡ 0 → Memᴰ f (k ∷ fs) → f ≡ k
only_head k fs f none_left (Memᴰ.head e) = e
only_head k fs f none_left (Memᴰ.tail m) = absurd (count_digests-zero fs none_left f m)

-- The members of a list with at most one digest agree.
digests-agree :
    (fs : List Found) (f g : Found)
    → count_digests fs ≤ 1
    → Memᴰ f fs
    → Memᴰ g fs
    → f.marker.digest ≡ g.marker.digest
digests-agree [] f g h m m' = elim m [ ]
digests-agree (k ∷ fs) f g h m m' = elim (Bool-cases (has_digest k.marker.digest fs)) [
  | inl known ↦
      let (a, ma, ea) = in_rest k fs f known m in
      let (b, mb, eb) = in_rest k fs g known m' in
      let small = subst (λ n. n ≤ 1) (count_digests-known k fs known) h in
      sym ea ∙ digests-agree fs a b small ma mb ∙ eb
  | inr new ↦
      let e = count_digests-new k fs new in
      let empty : count_digests fs ≡ 0 = omega (arith, e, h) in
      ap (λ x. x.marker.digest) (only_head k fs f empty m ∙ sym (only_head k fs g empty m'))
]

collect_markers_lem :
    (issue pr : ℕ) (c : Comment) (ms : List Marker) (f : Found)
    → Memᴰ f (collect_markers issue pr c ms)
    → (f.comment ≡ c) × Memᴰ f.marker ms × (names issue pr f.marker ≡ true)
unfolding collect_markers
collect_markers_lem issue pr c [] f m = elim m [ ]
collect_markers_lem issue pr c (k ∷ ms) f m = elim (Bool-cases (names issue pr k)) [
  | inl good ↦
      elim (Memᴰ.cases_cons (
        subst (Memᴰ f)
          (if_true (names issue pr k)
            (record { comment = c; marker = k } ∷ collect_markers issue pr c ms) _ good)
          m)) [
            | inl e ↦ (
              ap (λ x. x.comment) e,
              Memᴰ.head (ap (λ x. x.marker) e),
              ap (λ x. names issue pr x.marker) e ∙ good,
            )
            | inr m' ↦
                let (here, mem, named) = collect_markers_lem issue pr c ms f m' in
                (here, Memᴰ.tail mem, named)
          ]
  | inr bad ↦
      let (here, mem, named) =
        collect_markers_lem issue pr c ms f
          (subst (Memᴰ f) (if_false (names issue pr k) _ (collect_markers issue pr c ms) bad) m) in
      (here, Memᴰ.tail mem, named)
]

collect_lem :
    (issue pr : ℕ) (comments : List Comment) (f : Found)
    → Memᴰ f (collect_readiness_markers issue pr comments)
    → Memᴰ f.comment comments × Memᴰ f.marker f.comment.markers × (names issue pr f.marker ≡ true)
unfolding collect_readiness_markers
collect_lem issue pr [] f m = elim m [ ]
collect_lem issue pr (c ∷ comments) f m =
    elim (Memᴰ.append_cases (if is_parsed c.body then collect_markers issue pr c c.markers else [])
      m) [
        | inl here ↦ elim (Bool-cases (is_parsed c.body)) [
          | inl good ↦
              let (e, mem, named) = collect_markers_lem issue pr c c.markers f (
                subst (Memᴰ f)
                  (if_true (is_parsed c.body) (collect_markers issue pr c c.markers) [] good)
                  here) in
              (Memᴰ.head e, subst (λ x. Memᴰ f.marker x.markers) (sym e) mem, named)
          | inr bad ↦ absurd (
              Memᴰ.not-nil (
                subst (Memᴰ f)
                  (if_false (is_parsed c.body) (collect_markers issue pr c c.markers) [] bad) here))
        ]
        | inr there ↦
            let (mem, marked, named) = collect_lem issue pr comments f there in
            (Memᴰ.tail mem, marked, named)
      ]

module _ (outside : Outside) where
  -- A record that counts for a head: written by a trusted author, supported, decodable, at the head.
  abbrev pub Counts : (head : Text) → Found → Type 0
  Counts head f =
      (is_by_trusted outside f ≡ true)
      × (is_supported f ≡ true)
      × (is_decodable outside f ≡ true)
      × (is_at head f ≡ true)

  choose_lem :
      (fs : List Found) (f : Found)
      → choose outside fs ≡ accepted f
      → Memᴰ f fs × (count_digests fs ≤ 1)
  unfolding choose
  choose_lem fs f h = elim (Bool-cases (ltb 1 (count_digests fs))) [
    | inl many ↦ absurd (
        not_accepted f (
          sym
            (if_true (ltb 1 (count_digests fs)) (refused conflicting) (accept (get_last? fs)) many)
          ∙ h))
    | inr few ↦ (
      get_last?-Memᴰ f fs (
          accept_lem (get_last? fs) f (
            sym (
              if_false (ltb 1 (count_digests fs)) (refused conflicting) (accept (get_last? fs)) few)
            ∙ h)),
      ltb-false 1 (count_digests fs) few,
    )
  ]

  -- A record that is accepted is among the markers for the issue and the pull request, counts for the
  -- merged head, and has the digest of every other that counts.
  pub read_markers-accepted :
      (head : Text) (matching : List Found) (f : Found)
      → read_markers outside head matching ≡ accepted f
      → Memᴰ f matching
        × Counts head f
        × ((g : Found) → Memᴰ g matching → Counts head g → g.marker.digest ≡ f.marker.digest)
  unfolding read_markers
  read_markers-accepted head matching f h =
      let trusted = filter (is_by_trusted outside) matching in
      let supported = filter is_supported trusted in
      let decoded = filter (is_decodable outside) supported in
      let at_head = filter (is_at head) decoded in
      let h₁ = stage-accepted missing matching _ f h in
      let h₂ = stage-accepted untrusted trusted _ f h₁ in
      let h₃ = stage-accepted version_unsupported supported _ f h₂ in
      let h₄ = stage-accepted corrupt decoded _ f h₃ in
      let h₅ = stage-accepted head_mismatch at_head (choose outside) f h₄ in
      let (m₅, few) = choose_lem at_head f h₅ in
      let (m₄, there) = filter-Memᴰ (is_at head) f decoded m₅ in
      let (m₃, readable) = filter-Memᴰ (is_decodable outside) f supported m₄ in
      let (m₂, version) = filter-Memᴰ is_supported f trusted m₃ in
      let (m₁, author) = filter-Memᴰ (is_by_trusted outside) f matching m₂ in
      (
        m₁,
        (author, version, readable, there),
        λ g m c.
            digests-agree at_head g f few
              (Memᴰ-filter (is_at head) g decoded
                (Memᴰ-filter (is_decodable outside) g supported
                  (Memᴰ-filter is_supported g trusted
                    (Memᴰ-filter (is_by_trusted outside) g matching m c.0) c.1)
                  c.2)
                c.3)
              m₅,
      )

  -- A readiness record that is accepted stands in a comment of the thread, in a marker that names the
  -- issue and the pull request; its author may write to the repository, its version is supported, its
  -- payload fits its bound and its digest, and it was made for the merged head. Every other such
  -- record for that head has the same digest.
  pub readiness-accepted :
      (issue pr : ℕ) (head : Text) (comments : List Comment) (f : Found)
      → read_trusted_delivery_readiness outside issue pr head (some comments) ≡ accepted f
      → Memᴰ f (collect_readiness_markers issue pr comments)
        × Memᴰ f.comment comments
        × Memᴰ f.marker f.comment.markers
        × (names issue pr f.marker ≡ true)
        × Counts head f
        × ((g : Found)
            → Memᴰ g (collect_readiness_markers issue pr comments)
            → Counts head g
            → g.marker.digest ≡ f.marker.digest)
  unfolding read_trusted_delivery_readiness
  readiness-accepted issue pr head comments f h =
      let (m, counts, agree) =
        read_markers-accepted head (collect_readiness_markers issue pr comments) f h in
      let (there, marked, named) = collect_lem issue pr comments f m in
      (m, there, marked, named, counts, agree)
