-- ===== src/Delivery/Readiness.antt =====
-- `readTrustedDeliveryReadiness` of mcp/ground-control/lib/delivery-readiness.js.
use ground_control.Prelude.{
  ℕ, Option, Bool, List, false, ◌&&◌, ◌∷◌, some, leb, if◌then◌else◌, filter, ◌==◌, length, [], ◌||◌,
  suc, ltb, none, ◌++◌, all, get_last?,
}
use ground_control.Prelude.Text.{Text, text_eq, option_eq, codes}
use ground_control.AsyncJob.Options.{is_hex}

abbrev pub delivery_readiness_version : ℕ
delivery_readiness_version = 1

abbrev pub delivery_payload_max : ℕ
delivery_payload_max = 48000

abbrev pub github_issue_comment_body_max : ℕ
github_issue_comment_body_max = 65535

pub record Marker : Type 0 where
  pub version : Option ℕ
  pub issue : Option ℕ
  pub pr : Option ℕ
  pub lane : Option Text
  pub head : Option Text
  pub digest : Option Text
  pub payload_text : Text

-- A comment, with the markers that are parsed from its body.
pub record Comment : Type 0 where
  pub id : ℕ
  pub body : Option Text
  pub markers : List Marker

-- What the reader takes from elsewhere: SHA-256 in hexadecimal, whether a text is the JSON of an
-- object, and whether the author of a comment may write to the repository.
pub record Outside : Type 0 where
  pub sha256 : Text → Text
  pub is_json_object : Text → Bool
  pub is_trusted : Comment → Bool

pub record Found : Type 0 where
  pub comment : Comment
  pub marker : Marker

pub data Refusal : Type 0 where
  unreadable missing untrusted version_unsupported corrupt head_mismatch conflicting : Refusal

pub data Answer : Type 0 where
  refused : Refusal → Answer
  accepted : Found → Answer

unfoldable pub is_number : Option ℕ → ℕ → Bool
is_number none n = false
is_number (some m) n = m == n

unfoldable pub names : (issue pr : ℕ) → Marker → Bool
unfolding is_number
names issue pr m = is_number m.issue issue && is_number m.pr pr

unfoldable pub is_parsed : Option Text → Bool
is_parsed none = false
is_parsed (some t) = leb (length t) github_issue_comment_body_max

-- The loop over the markers of a comment.
unfoldable pub collect_markers : (issue pr : ℕ) → Comment → List Marker → List Found
unfolding names
collect_markers issue pr c [] = []
collect_markers issue pr c (m ∷ ms) =
    if names issue pr m
    then record { comment = c; marker = m } ∷ collect_markers issue pr c ms
    else collect_markers issue pr c ms

-- `collectReadinessMarkers`
unfoldable pub collect_readiness_markers : (issue pr : ℕ) → List Comment → List Found
unfolding is_parsed collect_markers
collect_readiness_markers issue pr [] = []
collect_readiness_markers issue pr (c ∷ cs) =
    (if is_parsed c.body then collect_markers issue pr c c.markers else [])
    ++ collect_readiness_markers issue pr cs

-- `/^[0-9a-f]{n}$/`
unfoldable pub is_hex_of : ℕ → Option Text → Bool
unfolding is_hex
is_hex_of n none = false
is_hex_of n (some t) = (length t == n) && all is_hex t

unfoldable pub is_lane : Option Text → Bool
unfolding text_eq
is_lane none = false
is_lane (some t) = text_eq t (codes "implement") || text_eq t (codes "quickfix")

unfoldable pub is_text : Option Text → Text → Bool
unfolding text_eq
is_text none t = false
is_text (some s) t = text_eq s t

unfoldable pub is_supported : Found → Bool
unfolding is_number
is_supported f = is_number f.marker.version delivery_readiness_version

unfoldable pub is_at : Text → Found → Bool
unfolding is_text
is_at head f = is_text f.marker.head head

-- Whether a further entry of a `Set` has the digest.
unfoldable pub has_digest : Option Text → List Found → Bool
unfolding option_eq
has_digest d [] = false
has_digest d (f ∷ fs) = option_eq d f.marker.digest || has_digest d fs

-- The size of the `Set` of the digests.
unfoldable pub count_digests : List Found → ℕ
unfolding has_digest
count_digests [] = 0
count_digests (f ∷ fs) =
    let rest = count_digests fs in if has_digest f.marker.digest fs then rest else suc rest

unfoldable pub accept : Option Found → Answer
accept none = refused head_mismatch
accept (some f) = accepted f

-- A refusal where nothing is left, as each stage has it.
unfoldable pub stage : Refusal → List Found → (List Found → Answer) → Answer
stage e [] next = refused e
stage e (f ∷ fs) next = next (f ∷ fs)

module _ (outside : Outside) where
  -- `decodeRecord` does not answer null.
  unfoldable pub is_decodable : Found → Bool
  unfolding is_hex_of is_text is_lane
  is_decodable f =
      leb (length f.marker.payload_text) delivery_payload_max
      && is_hex_of 64 f.marker.digest
      && is_text f.marker.digest (outside.sha256 f.marker.payload_text)
      && is_hex_of 40 f.marker.head
      && is_lane f.marker.lane
      && outside.is_json_object f.marker.payload_text

  unfoldable pub is_by_trusted : Found → Bool
  is_by_trusted f = outside.is_trusted f.comment

  -- The last stage: the records at the merged head agree.
  unfoldable pub choose : List Found → Answer
  unfolding count_digests accept
  choose at_head =
      if ltb 1 (count_digests at_head) then refused conflicting else accept (get_last? at_head)

  unfoldable pub read_markers : (head : Text) → List Found → Answer
  unfolding is_by_trusted is_supported is_decodable is_at choose
  read_markers head matching = stage missing matching λ matching.
      stage untrusted (filter is_by_trusted matching) λ trusted.
        stage version_unsupported (filter is_supported trusted) λ supported.
          stage corrupt (filter is_decodable supported)
            λ decoded. stage head_mismatch (filter (is_at head) decoded) choose

  -- `readTrustedDeliveryReadiness`
  unfoldable pub read_trusted_delivery_readiness :
      (issue pr : ℕ) (head : Text) → Option (List Comment) → Answer
  unfolding collect_readiness_markers read_markers
  read_trusted_delivery_readiness issue pr head none = refused unreadable
  read_trusted_delivery_readiness issue pr head (some comments) =
      read_markers head (collect_readiness_markers issue pr comments)
