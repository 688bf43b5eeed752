-- ===== src/Dependency/Redaction.antt =====
-- What the views of mcp/ground-control/lib/issue-dependency.js show of other repositories.
use ground_control.Prelude.{
  ◌≡◌, true, false, some, List, [], ◌∷◌, arith, ◌≢◌, sym, inl, ◌↔◌, ◌⊎◌, ◌∙◌, Bool-cases, ap, inr,
  refl,
}
use ground_control.Prelude.Text.{Text, text_eq_iff, text_eq}
use ground_control.Dependency.Issue.{Issue, View, view, views, is_local}

-- Two issues that a reader of the views is to find alike: at one place, and either in another
-- repository than the authorized one or with one content.
abbrev pub IsAlike : (Text → Text) → Text → Issue → Issue → Type 0
IsAlike f key i j =
    (i.repository ≡ j.repository)
    × (i.number ≡ j.number)
    × ((f i.repository ≢ key) ⊎ ((i.title ≡ j.title) × (i.state ≡ j.state) × (i.url ≡ j.url)))

-- The lists have the same length, and are alike entry by entry.
abbrev pub AllAlike : (Text → Text) → Text → List Issue → List Issue → Type 0
AllAlike f key [] [] = Unit
AllAlike f key [] (j ∷ js) = ⊥
AllAlike f key (i ∷ is) [] = ⊥
AllAlike f key (i ∷ is) (j ∷ js) = IsAlike f key i j × AllAlike f key is js

local_lem :
    (f : Text → Text) (key : Text) (i : Issue) → is_local f key i ≡ true → f i.repository ≢ key → ⊥
local_lem f key i yes_local other = other ((text_eq_iff (f i.repository) key).0 yes_local)

other_lem :
    (f : Text → Text) (key : Text) (i : Issue) → is_local f key i ≡ false → f i.repository ≢ key
other_lem f key i outside same =
    absurd (ground (arith, outside, (text_eq_iff (f i.repository) key).1 same))

view_repository :
    (f : Text → Text) (key : Text) (i : Issue) → (view f key i).repository ≡ i.repository
unfolding view
view_repository f key i = ground arith

view_number : (f : Text → Text) (key : Text) (i : Issue) → (view f key i).number ≡ i.number
unfolding view
view_number f key i = ground arith

view_inside :
    (f : Text → Text) (key : Text) (i : Issue)
    → is_local f key i ≡ true
    → ((view f key i).title ≡ i.title)
      × ((view f key i).state ≡ i.state)
      × ((view f key i).url ≡ some i.url)
unfolding view
view_inside f key i inside = ground (arith, inside)

some_inj_text : {s t : Text} → some s ≡ some t → s ≡ t
some_inj_text h = cc

view-IsAlike :
    (f : Text → Text) (key : Text) (i j : Issue) → view f key i ≡ view f key j → IsAlike f key i j
view-IsAlike f key i j e =
    let place : i.repository ≡ j.repository =
      sym (view_repository f key i) ∙ ap (λ (v : View). v.repository) e ∙ view_repository f key j in
    (
      place,
      sym (view_number f key i) ∙ ap (λ (v : View). v.number) e ∙ view_number f key j,
      elim (Bool-cases (is_local f key i)) [
        | inr outside ↦ inl (other_lem f key i outside)
        | inl inside ↦
            let here = view_inside f key i inside in
            let there = view_inside f key j (ap (λ r. text_eq (f r) key) (sym place) ∙ inside) in
            inr (
              sym here.0 ∙ ap (λ (v : View). v.title) e ∙ there.0,
              sym here.1 ∙ ap (λ (v : View). v.state) e ∙ there.1,
              some_inj_text (sym here.2 ∙ ap (λ (v : View). v.url) e ∙ there.2),
            )
      ],
    )

IsAlike-view :
    (f : Text → Text) (key : Text) (i j : Issue) → IsAlike f key i j → view f key i ≡ view f key j
unfolding view
IsAlike-view f key i j (place, number, inl other) =
    let outside : is_local f key i ≡ false = elim (Bool-cases (is_local f key i)) [
      | inl inside ↦ absurd (local_lem f key i inside other)
      | inr outside ↦ outside
    ] in
    let outside' : is_local f key j ≡ false = ap (λ r. text_eq (f r) key) (sym place) ∙ outside in
    ground (arith, outside, outside', place, number)
IsAlike-view f key i j (place, number, inr (title, state, url)) =
    let same : is_local f key i ≡ is_local f key j = ap (λ r. text_eq (f r) key) place in
    ground (arith, same, place, number, title, state, url)

-- Two lists of dependencies have the same views exactly when they are alike entry by entry: the
-- views tell each dependency's repository and number and, of those in the authorized repository, the
-- title, the state and the address; of those in another repository they tell nothing more.
pub views_iff :
    (f : Text → Text) (key : Text) (is js : List Issue)
    → (views f key is ≡ views f key js) ↔ AllAlike f key is js
unfolding views
views_iff f key [] [] = ((λ _. tt), (λ _. refl))
views_iff f key [] (j ∷ js) = ((λ h. cc), (λ h. absurd h))
views_iff f key (i ∷ is) [] = ((λ h. cc), (λ h. absurd h))
views_iff f key (i ∷ is) (j ∷ js) =
    let (there, back) = views_iff f key is js in
    (
      (λ h. (view-IsAlike f key i j (cc), there (cc))),
      (λ (alike, rest).
          ap (λ v. v ∷ views f key is) (IsAlike-view f key i j alike)
          ∙ ap (λ l. view f key j ∷ l) (back rest)),
    )
