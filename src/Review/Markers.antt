-- ===== src/Review/Markers.antt =====
-- The markers of the cycles before a push: `parseCodexReviewPrePushCycleMarkers` of
-- mcp/ground-control/lib/api-requirements.js and `postCodexReviewPrePushCycleMarker` of
-- mcp/ground-control/lib/codex-verify-cap.js.
use ground_control.Prelude.{
  ℕ, Option, none, some, List, [], ◌∷◌, ◌++◌, length, ◌==◌, ◌&&◌, ◌+◌, if◌then◌else◌, is_some,
  arith, ◌≡◌, suc, true,
}
use ground_control.Prelude.Text.{Text}

-- A match of the marker's pattern in the body of a comment; `branch` is none where the attribute
-- does not decode as JSON.
pub record Marker : Type 0 where
  pub issue : ℕ
  pub branch : Option Text
  pub cycle : ℕ

-- `parseCodexReviewPrePushCycleMarkerEntries`, of the matches in one body
unfoldable pub marker_entries : List Marker → ℕ → List Marker
marker_entries [] issue = []
marker_entries (m ∷ ms) issue =
    let rest = marker_entries ms issue in
    if (m.issue == issue) && is_some m.branch then m ∷ rest else rest

-- `parseCodexReviewPrePushCycleMarkers`, of the matches in each of the bodies
unfoldable pub count_markers : List (List Marker) → ℕ → ℕ
unfolding marker_entries
count_markers [] issue = 0
count_markers (body ∷ bodies) issue =
    length (marker_entries body issue) + count_markers bodies issue

-- The comments of an issue, each by its matches; none where they cannot be read.
abbrev pub Thread : Type 0
Thread = ℕ → Option (List (List Marker))

unfoldable pub add_body : List Marker → Option (List (List Marker)) → Option (List (List Marker))
add_body body none = none
add_body body (some bodies) = some (bodies ++ body ∷ [])

-- The threads once a cycle's marker is posted on that of its issue; the pattern finds it once in the
-- new comment, with a branch that decodes, since it was escaped.
unfoldable pub post_marker : Thread → (issue : ℕ) → (branch : Text) → (cycle : ℕ) → Thread
unfolding add_body
post_marker thread issue branch cycle n =
    if n == issue
    then add_body (record { issue = issue; branch = some branch; cycle = cycle } ∷ []) (thread n)
    else thread n

count_markers-append :
    (bodies : List (List Marker)) (m : Marker) (issue : ℕ)
    → (m.issue == issue) && is_some m.branch ≡ true
    → count_markers (bodies ++ (m ∷ []) ∷ []) issue ≡ suc (count_markers bodies issue)
unfolding count_markers marker_entries
count_markers-append [] m issue mine = ground (arith, mine)
count_markers-append (body ∷ bodies) m issue mine =
    ground (arith, count_markers-append bodies m issue mine)

-- A marker that is posted counts for its issue, whatever its branch.
pub post_marker_lem :
    (thread : Thread) (issue : ℕ) (branch : Text) (cycle : ℕ) (bodies : List (List Marker))
    → thread issue ≡ some bodies
    → (later : List (List Marker)) × (post_marker thread issue branch cycle issue ≡ some later)
      × (count_markers later issue ≡ suc (count_markers bodies issue))
unfolding post_marker add_body
post_marker_lem thread issue branch cycle bodies h =
    let m : Marker = record { issue = issue; branch = some branch; cycle = cycle } in
    let here : (issue == issue) ≡ true = ground arith in
    (
      bodies ++ (m ∷ []) ∷ [],
      ground (arith, h, here),
      count_markers-append bodies m issue (ground (arith, here)),
    )
