-- ===== src/Delivery/Pointer.antt =====
-- `readTrustedDeliveryPointer` of mcp/ground-control/lib/delivery-readiness.js.
use ground_control.Prelude.{
  Option, ℕ, List, Bool, if◌then◌else◌, ◌∷◌, any, some, none, ◌++◌, ◌==◌, suc, ltb, filter,
  get_last?, [],
}
use ground_control.Delivery.Readiness.{is_number}

pub record Pointer : Type 0 where
  pub issue : Option ℕ
  pub pr : Option ℕ
  pub record_id : Option ℕ

-- A comment on the pull request, with the pointers that are parsed from its body.
pub record PointerComment : Type 0 where
  pub id : ℕ
  pub pointers : List Pointer

pub record FoundPointer : Type 0 where
  pub comment : PointerComment
  pub issue : ℕ
  pub record_id : Option ℕ

pub data PointerRefusal : Type 0 where
  unreadable missing untrusted conflicting : PointerRefusal

pub data PointerAnswer : Type 0 where
  refused : PointerRefusal → PointerAnswer
  pointer : FoundPointer → PointerAnswer

-- The issue of a pointer that names the pull request.
unfoldable pub points_for : (pr : ℕ) → Pointer → Option ℕ
unfolding is_number
points_for pr p = if is_number p.pr pr then p.issue else none

unfoldable pub collect_of : (pr : ℕ) → PointerComment → List Pointer → List FoundPointer
unfolding points_for
collect_of pr c [] = []
collect_of pr c (p ∷ ps) =
    let rest = collect_of pr c ps in
    elim (points_for pr p) [
      | none ↦ rest
      | some n ↦ record { comment = c; issue = n; record_id = p.record_id } ∷ rest
    ]

unfoldable pub collect_pointers : (pr : ℕ) → List PointerComment → List FoundPointer
unfolding collect_of
collect_pointers pr [] = []
collect_pointers pr (c ∷ cs) = collect_of pr c c.pointers ++ collect_pointers pr cs

unfoldable pub has_issue : ℕ → List FoundPointer → Bool
has_issue n fs = any (λ f. f.issue == n) fs

-- The size of the `Set` of the issues.
unfoldable pub count_issues : List FoundPointer → ℕ
unfolding has_issue
count_issues [] = 0
count_issues (f ∷ fs) =
    let rest = count_issues fs in if has_issue f.issue fs then rest else suc rest

unfoldable pub last_pointer : Option FoundPointer → PointerAnswer
last_pointer none = refused untrusted
last_pointer (some f) = pointer f

-- Without a pointer there is no last one.
unfoldable pub choose_pointer : List FoundPointer → PointerAnswer
unfolding count_issues last_pointer
choose_pointer fs =
    if ltb 1 (count_issues fs) then refused conflicting else last_pointer (get_last? fs)

unfoldable pub trusted_pointers :
    (is_trusted : PointerComment → Bool) → List FoundPointer → PointerAnswer
unfolding choose_pointer
trusted_pointers is_trusted [] = refused missing
trusted_pointers is_trusted (f ∷ fs) = choose_pointer (filter (λ g. is_trusted g.comment) (f ∷ fs))

-- `readTrustedDeliveryPointer`
unfoldable pub read_trusted_delivery_pointer :
    (is_trusted : PointerComment → Bool) (pr : ℕ) → Option (List PointerComment) → PointerAnswer
unfolding collect_pointers trusted_pointers
read_trusted_delivery_pointer is_trusted pr none = refused unreadable
read_trusted_delivery_pointer is_trusted pr (some comments) =
    trusted_pointers is_trusted (collect_pointers pr comments)
