-- ===== src/Ledger/Template.antt =====
-- Templates of a release family: `parseTemplate`, `renderParts` and the offsets of
-- mcp/ground-control/lib/release-identity-config.js.
use ground_control.Prelude.Text.{Text, text_eq, codes}
use ground_control.Prelude.{
  List, ℕ, Bool, Option, any, ◌∷◌, if◌then◌else◌, [], true, ltb, ◌&&◌, none, some, ◌==◌, ◌+◌, ◌++◌,
  leb, all, not, ◌||◌, suc, false, length, reverse,
}
use ground_control.Ledger.Names.{is_digit_unit, decimal, number_of_digits, starts_with, drop}
use ground_control.Prelude.Int.{ℤ, sub_ℕ, pos, negsuc}

pub data Part : Type 0 where
  literal : Text → Part
  sequence_offset : ℤ → Part
  version_part : Part

pub data Parsed : Type 0 where
  parsed : List Part → Parsed
  unsupported_token unbalanced_braces : Parsed

-- The matches of `TOKEN_RE`, a text between a brace and the next closing one with no brace inside,
-- and the texts around them.
pub data Piece : Type 0 where
  outside token : Text → Piece

-- `before` is the text since the last token, `body` that since an opening brace that stays open, both
-- reversed.
unfoldable pub scan : (before : Text) (body : Option Text) → Text → List Piece
scan before none [] = outside (reverse before) ∷ []
scan before (some body) [] = outside (reverse (body ++ b'{' ∷ before)) ∷ []
scan before none (c ∷ s) =
    scan (if c == b'{' then before else c ∷ before) (if c == b'{' then some [] else none) s
scan before (some body) (c ∷ s) =
    let closed = outside (reverse before) ∷ token (reverse body) ∷ scan [] none s in
    let again = scan (body ++ b'{' ∷ before) (some []) s in
    let more = scan before (some (c ∷ body)) s in
    if c == b'}' then closed else if c == b'{' then again else more

-- The digits of an offset: a first one that is not 0 and at most three more.
unfoldable pub offset_digits : Text → Option ℕ
unfolding is_digit_unit number_of_digits
offset_digits [] = none
offset_digits (c ∷ s) =
    if is_digit_unit c && not (c == b'0') && all is_digit_unit s && leb (length s) 3
    then some (number_of_digits 0 (c ∷ s))
    else none

abbrev pub minus : ℕ → ℤ
minus n = sub_ℕ 0 n

unfoldable pub signed_offset : Text → Option ℤ
unfolding offset_digits
signed_offset [] = none
signed_offset (c ∷ s) = elim (offset_digits s) [
  | none ↦ none
  | some n ↦ if c == b'+' then some (pos n) else if c == b'-' then some (minus n) else none
]

abbrev pub sequence_word : Text
sequence_word = codes "sequence"

-- A token's part; none for an unsupported one.
unfoldable pub token_part : Bool → Text → Option Part
unfolding signed_offset text_eq starts_with
token_part allow_version body =
    if text_eq body sequence_word
    then some (sequence_offset (pos 0))
    else elim (signed_offset (drop 8 body)) [
      | some k ↦
          if starts_with body sequence_word
          then some (sequence_offset k)
          else if allow_version && text_eq body (codes "version")
          then some version_part
          else none
      | none ↦ if allow_version && text_eq body (codes "version") then some version_part else none
    ]

-- `/[{}]/.test`
unfoldable pub has_brace : Text → Bool
has_brace s = any (λ c. (c == b'{') || (c == b'}')) s

unfoldable pub cons_part : Part → Parsed → Parsed
cons_part p (parsed ps) = parsed (p ∷ ps)
cons_part p e = e

-- The parts of the pieces: an unsupported token is reported before a brace that stands alone.
unfoldable pub parts_of : Bool → List Piece → Parsed
unfolding token_part has_brace cons_part
parts_of allow [] = parsed []
parts_of allow (outside s ∷ ps) = elim (parts_of allow ps) [
  | parsed rest ↦ if has_brace s then unbalanced_braces else parsed (literal s ∷ rest)
  | e ↦ e
]
parts_of allow (token s ∷ ps) = elim (token_part allow s) [
  | none ↦ unsupported_token
  | some p ↦ cons_part p (parts_of allow ps)
]

-- `parseTemplate`
unfoldable pub parse_template : Bool → Text → Parsed
unfolding scan parts_of
parse_template allow_version template = parts_of allow_version (scan [] none template)

-- The parts of a template that parses; of another, none.
unfoldable pub template_parts : Parsed → List Part
template_parts (parsed ps) = ps
template_parts _ = []

unfoldable pub add_offset : ℕ → ℤ → ℤ
add_offset n (pos k) = pos (n + k)
add_offset n (negsuc k) = sub_ℕ n (suc k)

-- `String` of an integer
unfoldable pub decimal_of : ℤ → Text
unfolding decimal
decimal_of (pos n) = decimal n []
decimal_of (negsuc n) = b'-' ∷ decimal (suc n) []

unfoldable pub render_part : ℕ → Text → Part → Text
unfolding add_offset decimal_of
render_part sequence version (literal s) = s
render_part sequence version version_part = version
render_part sequence version (sequence_offset k) = decimal_of (add_offset sequence k)

-- `renderParts`
unfoldable pub render_parts : ℕ → Text → List Part → Text
unfolding render_part
render_parts sequence version [] = []
render_parts sequence version (p ∷ ps) =
    render_part sequence version p ++ render_parts sequence version ps

-- `sequence + smallestOffset(parts) >= 1`: no offset, 0 among them, takes the sequence below 1.
unfoldable pub is_at_least_one : ℤ → Bool
is_at_least_one (pos n) = ltb 0 n
is_at_least_one (negsuc n) = false

unfoldable pub is_at_most : ℤ → ℕ → Bool
is_at_most (pos n) max = leb n max
is_at_most (negsuc n) max = true

unfoldable pub is_above_zero_at : ℕ → Part → Bool
unfolding is_at_least_one add_offset
is_above_zero_at sequence (sequence_offset k) = is_at_least_one (add_offset sequence k)
is_above_zero_at sequence _ = true

unfoldable pub is_within_at : ℕ → ℕ → Part → Bool
unfolding is_at_most add_offset
is_within_at sequence max (sequence_offset k) = is_at_most (add_offset sequence k) max
is_within_at sequence max _ = true

-- The negation of `rendersBelowOne`, at a floor that is a number.
unfoldable pub renders_above_zero : List Part → ℕ → Bool
unfolding is_above_zero_at
renders_above_zero parts sequence = ltb 0 sequence && all (is_above_zero_at sequence) parts

-- The two bounds that `releaseSequenceRenderable` puts on a template.
unfoldable pub renders_within : List Part → ℕ → ℕ → Bool
unfolding renders_above_zero is_within_at
renders_within parts sequence max =
    renders_above_zero parts sequence && leb sequence max && all (is_within_at sequence max) parts
