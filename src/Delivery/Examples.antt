-- ===== src/Delivery/Examples.antt =====
-- The theorem on the handoff of a delivery at a concrete input.
use mathlib.Core.List.{Memᴰ}
use ground_control.Prelude.{refl, List, some, true, none, ◌==◌, ◌≡◌, ◌∷◌, []}
use ground_control.Prelude.Text.{Text, codes}
use ground_control.Delivery.Readiness.{
  Marker, Outside, Found, read_trusted_delivery_readiness, collect_readiness_markers, Comment,
  stage, names, accepted, refused, corrupt,
}
use ground_control.Delivery.Trusted.{Counts, readiness-accepted}
use ground_control.Delivery.Pointer.{read_trusted_delivery_pointer, PointerAnswer, PointerRefusal}

abbrev digest : Text
digest = codes "0123456789abcdef0123456789abcdef0123456789abcdef0123456789abcdef"

abbrev head : Text
head = codes "0123456789abcdef0123456789abcdef01234567"

abbrev marker : Marker
marker = record {
  version = some 1;
  issue = some 7;
  pr = some 9;
  lane = some (codes "implement");
  head = some head;
  digest = some digest;
  payload_text = codes "{}";
}

-- Two comments with the record; the first one is by an author who may not write.
abbrev comments : List Comment
comments =
    record { id = 1; body = some (codes "ready"); markers = record marker { digest = none } ∷ [] }
    ∷ record { id = 2; body = some (codes "ready"); markers = marker ∷ [] }
    ∷ []

abbrev outside : Outside
outside = record { sha256 = λ t. digest; is_json_object = λ t. true; is_trusted = λ c. c.id == 2 }

abbrev found : Found
found = record {
  comment = record { id = 2; body = some (codes "ready"); markers = marker ∷ [] };
  marker = marker;
}

accepted_test : read_trusted_delivery_readiness outside 7 9 head (some comments) ≡ accepted found
unfolding read_trusted_delivery_readiness stage
accepted_test = refl

corrupt_test :
    read_trusted_delivery_readiness
      (record outside { is_trusted = λ c. true; sha256 = λ t. t })
      7
      9
      head
      (some comments)
    ≡ refused corrupt
unfolding read_trusted_delivery_readiness stage
corrupt_test = refl

readiness-accepted_example :
    Memᴰ found (collect_readiness_markers 7 9 comments)
    × Memᴰ found.comment comments
    × Memᴰ found.marker found.comment.markers
    × (names 7 9 found.marker ≡ true)
    × Counts outside head found
    × ((g : Found)
        → Memᴰ g (collect_readiness_markers 7 9 comments)
        → Counts outside head g
        → g.marker.digest ≡ found.marker.digest)
readiness-accepted_example = readiness-accepted outside 7 9 head comments found accepted_test

-- Two trusted comments that point at different issues.
pointer_test :
    read_trusted_delivery_pointer
      (λ c. true)
      9
      (some (
        record { id = 1; pointers = record { issue = some 7; pr = some 9; record_id = none } ∷ [] }
        ∷ record {
          id = 2;
          pointers = record { issue = some 8; pr = some 9; record_id = none } ∷ [];
        }
        ∷ []))
    ≡ PointerAnswer.refused PointerRefusal.conflicting
unfolding read_trusted_delivery_pointer
pointer_test = refl
