-- ===== src/Ledger/Event.antt =====
-- The events of the reservation log in mcp/ground-control/lib/release-identity-ledger.js: their shapes,
-- their validation, and the messages that carry them.
use Prim.Native.Nat.{◌^◌}
use ground_control.Prelude.{
  [], ◌∙◌, ap, ℕ, List, Bool, Option, some, length, leb, ◌&&◌, if◌then◌else◌, ◌≡◌, none, ◌==◌, all,
  true, arith, Option-cases, inl, inr, ◌∷◌, ◌-◌, false,
}
use ground_control.Prelude.Text.{Text, text_eq, codes}
use ground_control.AsyncJob.Options.{is_hex}
use ground_control.Ledger.Family.{
  is_normal_family, is_family_name, Family, release_sequence_renderable,
  is_safe_rendered_release_path, render_release_identity, release_version_max, release_sequence_max,
  values,
}
use ground_control.Ledger.Names.{is_release_issue_branch}

-- An object id, as a number.
abbrev pub Sha : Type 0
Sha = ℕ

pub data Reason : Type 0 where
  capture_not_needed generation_failed superseded run_abandoned : Reason

pub record Claim : Type 0 where
  pub branch : Text
  pub previous_claim : Option Sha
  pub version : Text
  pub paths : List (Text × Text)
  pub base_branch : Text
  pub base_revision : Sha
  pub family_definition : Family
  pub family_digest : Text

pub data Body : Type 0 where
  reserved : Claim → Body
  published : (published_revision : Sha) (artifacts : List (Text × Sha)) → Body
  abandoned : Reason → Body

-- The fields of `COMMON_KEYS` but the schema, which is the same for all.
pub record Event : Type 0 where
  pub repository : Text
  pub family : Text
  pub slot : ℕ
  pub sequence : ℕ
  pub issue_number : ℕ
  pub idempotency_hash : Text
  pub body : Body

-- The subject line of a message, and the event that its text decodes to, if it has the keys and the
-- field types of its shape; `size` is the length of the message.
pub record Message : Type 0 where
  pub subject_family : Text
  pub subject_slot : ℕ
  pub subject_sequence : ℕ
  pub subject_event : Text
  pub event : Option Event
  pub size : ℕ

-- What the ledger takes from elsewhere: the length of the message that carries an event, the digest
-- of a family, and `toLowerCase`.
pub record Codec : Type 0 where
  pub message_size : Event → ℕ
  pub family_digest : Family → Text
  pub to_lower : Text → Text

abbrev pub release_ledger_slots_max : ℕ
release_ledger_slots_max = 10000

abbrev pub release_event_message_max : ℕ
release_event_message_max = 16384

unfoldable pub event_name : Body → Text
event_name (reserved c) = codes "reserved"
event_name (published r a) = codes "published"
event_name (abandoned r) = codes "abandoned"

-- `HASH_RE`
unfoldable pub is_hash : Text → Bool
unfolding is_hex
is_hash s = (length s == 64) && all is_hex s

unfoldable pub same_paths : List (Text × Text) → List (Text × Text) → Bool
unfolding text_eq
same_paths [] [] = true
same_paths ((k, v) ∷ m) ((j, w) ∷ n) = text_eq k j && text_eq v w && same_paths m n
same_paths _ _ = false

module _ (codec : Codec) where
  -- `claimRendersFromDefinition`
  unfoldable pub claim_renders : Text → ℕ → Claim → Bool
  unfolding is_normal_family text_eq release_sequence_renderable render_release_identity same_paths
  claim_renders name sequence c =
      let rendered = render_release_identity c.family_definition sequence in
      is_normal_family name c.family_definition
      && text_eq c.base_branch c.family_definition.base_branch
      && text_eq c.family_digest (codec.family_digest c.family_definition)
      && release_sequence_renderable c.family_definition sequence
      && text_eq rendered.version c.version
      && same_paths rendered.paths c.paths

  -- `valid` of `EVENT_SHAPES`
  unfoldable pub has_valid_body : Event → Body → Bool
  unfolding is_release_issue_branch is_hash is_safe_rendered_release_path claim_renders
  has_valid_body e (reserved c) =
      is_release_issue_branch (some c.branch) e.issue_number
      && is_hash c.family_digest
      && leb (length c.version) release_version_max
      && all is_safe_rendered_release_path (values c.paths)
      && claim_renders e.family e.sequence c
  has_valid_body e (published r artifacts) = true
  has_valid_body e (abandoned reason) = true

  unfoldable pub in_range : ℕ → ℕ → Bool
  in_range n max = leb 1 n && leb n max

  -- `hasValidCommonFields`
  unfoldable pub has_valid_common_fields : Event → Bool
  unfolding is_family_name in_range is_hash
  has_valid_common_fields e =
      is_family_name e.family
      && in_range e.slot release_ledger_slots_max
      && in_range e.sequence release_sequence_max
      && in_range e.issue_number (2 ^ 53 - 1)
      && is_hash e.idempotency_hash

  unfoldable pub is_valid_event : Event → Bool
  unfolding has_valid_common_fields has_valid_body
  is_valid_event e = has_valid_common_fields e && has_valid_body e e.body

  unfoldable pub subject_matches : Message → Event → Bool
  unfolding text_eq event_name
  subject_matches m e =
      text_eq m.subject_family e.family
      && (m.subject_slot == e.slot)
      && (m.subject_sequence == e.sequence)
      && text_eq m.subject_event (event_name e.body)

  unfoldable pub accept_event : Message → Option Event → Option Event
  unfolding is_valid_event subject_matches
  accept_event m none = none
  accept_event m (some e) = if is_valid_event e && subject_matches m e then some e else none

  -- `parseReleaseEventMessage`
  unfoldable pub parse_release_event_message : Message → Option Event
  unfolding accept_event
  parse_release_event_message m =
      if leb m.size release_event_message_max then accept_event m m.event else none

  -- `buildReleaseEventMessage`
  unfoldable pub build_release_event_message : Event → Message
  unfolding event_name
  build_release_event_message e = record {
    subject_family = e.family;
    subject_slot = e.slot;
    subject_sequence = e.sequence;
    subject_event = event_name e.body;
    event = some e;
    size = codec.message_size e;
  }

  -- `buildValidatedReleaseEventMessage`: what is parsed back is the event itself.
  unfoldable pub build_validated_message : Event → Option Message
  unfolding build_release_event_message parse_release_event_message
  build_validated_message e =
      let m = build_release_event_message e in
      elim (parse_release_event_message m) [ none ↦ none | some _ ↦ some m ]

  parse_lem :
      (e e' : Event)
      → parse_release_event_message (build_release_event_message e) ≡ some e'
      → e' ≡ e
  unfolding parse_release_event_message build_release_event_message accept_event
  parse_lem e e' h = ground arith

  -- A message that is built is accepted back, unchanged.
  pub parse-build :
      (e : Event) (m : Message)
      → build_validated_message e ≡ some m
      → (m ≡ build_release_event_message e) × (parse_release_event_message m ≡ some e)
  unfolding build_validated_message
  parse-build e m h =
      elim (Option-cases (parse_release_event_message (build_release_event_message e))) [
        | inl refused ↦ ground (arith, refused, h)
        | inr (e', accepted) ↦
            let same : m ≡ build_release_event_message e = ground (arith, accepted, h) in
            (same, rw same (accepted ∙ ap some (parse_lem e e' accepted)))
      ]
