-- ===== src/Ledger/Names.antt =====
-- Names: `isSafeGitRefName` of mcp/ground-control/lib/repo-context.js, the branch test and the
-- reference names of mcp/ground-control/lib/release-identity-ledger.js, and decimal numbers.
use ground_control.Prelude.Text.{Text, text_eq, codes}
use ground_control.Prelude.{
  ℕ, Option, List, Bool, ◌∷◌, suc, ◌++◌, if◌then◌else◌, some, true, ◌||◌, ◌==◌, leb, [], ltb, ◌/◌,
  false, ◌*◌, none, length, zero, ◌&&◌, ◌%◌, ◌+◌, all, not, ◌-◌, any,
}

-- `s.startsWith(prefix)`
unfoldable pub starts_with : Text → Text → Bool
starts_with s [] = true
starts_with [] (p ∷ prefix) = false
starts_with (c ∷ s) (p ∷ prefix) = (c == p) && starts_with s prefix

-- `s.endsWith(suffix)`
unfoldable pub ends_with : Text → Text → Bool
unfolding text_eq
ends_with [] suffix = text_eq [] suffix
ends_with (c ∷ s) suffix = text_eq (c ∷ s) suffix || ends_with s suffix

-- `s.includes(part)`
unfoldable pub has_part : Text → Text → Bool
unfolding starts_with
has_part [] part = starts_with [] part
has_part (c ∷ s) part = starts_with (c ∷ s) part || has_part s part

-- `c` in front of the first of the segments.
unfoldable pub add_to_first : ℕ → List Text → List Text
add_to_first c [] = (c ∷ []) ∷ []
add_to_first c (s ∷ ss) = (c ∷ s) ∷ ss

-- `s.split("/")`
unfoldable pub split_path : Text → List Text
unfolding add_to_first
split_path [] = [] ∷ []
split_path (c ∷ s) = let rest = split_path s in if c == b'/' then [] ∷ rest else add_to_first c rest

unfoldable pub is_letter_or_digit : ℕ → Bool
is_letter_or_digit c =
    (leb b'A' c && leb c b'Z') || (leb b'a' c && leb c b'z') || (leb b'0' c && leb c b'9')

-- `[A-Za-z0-9._/-]`
unfoldable pub is_path_unit : ℕ → Bool
unfolding is_letter_or_digit
is_path_unit c = is_letter_or_digit c || (c == b'.') || (c == b'_') || (c == b'/') || (c == b'-')

unfoldable pub is_bad_component : Text → Bool
unfolding starts_with ends_with text_eq
is_bad_component part =
    text_eq part []
    || starts_with part (codes ".")
    || ends_with part (codes ".")
    || ends_with part (codes ".lock")

-- `isSafeGitRefName`
unfoldable pub is_safe_git_ref_name : Text → Bool
unfolding is_path_unit starts_with ends_with has_part is_bad_component split_path
is_safe_git_ref_name s =
    ltb 0 (length s)
    && all is_path_unit s
    && not (starts_with s (codes "-"))
    && not (starts_with s (codes "/") || ends_with s (codes "/"))
    && not (starts_with s (codes ".") || ends_with s (codes "."))
    && not (ends_with s (codes ".lock"))
    && not (has_part s (codes ".."))
    && not (has_part s (codes "//"))
    && not (any is_bad_component (split_path s))

-- The decimal digits of `n` in front of `rest`, with fuel above `n`.
unfoldable pub decimal_from : ℕ → ℕ → Text → Text
decimal_from zero n rest = rest
decimal_from (suc fuel) n rest =
    let more = decimal_from fuel (n / 10) ((n % 10 + b'0') ∷ rest) in
    if ltb n 10 then (n + b'0') ∷ rest else more

-- `String(n)` in front of `rest`
unfoldable pub decimal : ℕ → Text → Text
unfolding decimal_from
decimal n rest = decimal_from (suc n) n rest

-- `isReleaseIssueBranch`
unfoldable pub is_release_issue_branch : Option Text → ℕ → Bool
unfolding starts_with decimal is_safe_git_ref_name
is_release_issue_branch none issue = false
is_release_issue_branch (some branch) issue =
    let prefix = decimal issue (codes "-") in
    starts_with branch prefix && ltb (length prefix) (length branch) && is_safe_git_ref_name branch

pub data RefKind : Type 0 where
  claims outcomes : RefKind

abbrev pub kind_text : RefKind → Text
kind_text claims = codes "claims"
kind_text outcomes = codes "outcomes"

-- `refs/${releaseLedgerNamespace(family)}`
unfoldable pub ledger_namespace : Text → Text
ledger_namespace family = codes "refs/gc/release-identities/" ++ family ++ codes "/"

-- `releaseLedgerRef`
unfoldable pub release_ledger_ref : Text → RefKind → ℕ → Text
unfolding ledger_namespace decimal
release_ledger_ref family kind slot =
    ledger_namespace family ++ kind_text kind ++ b'/' ∷ decimal slot []

unfoldable pub is_digit_unit : ℕ → Bool
is_digit_unit c = leb b'0' c && leb c b'9'

-- `SLOT_SEGMENT_RE`
unfoldable pub is_slot_segment : Text → Bool
unfolding is_digit_unit
is_slot_segment [] = false
is_slot_segment (c ∷ s) =
    is_digit_unit c && not (c == b'0') && all is_digit_unit s && leb (length s) 4

-- `Number(segment)` on digits
unfoldable pub number_of_digits : ℕ → Text → ℕ
number_of_digits n [] = n
number_of_digits n (c ∷ s) = number_of_digits (10 * n + (c - b'0')) s

-- `s.slice(prefix.length)`
abbrev pub drop : ℕ → Text → Text
drop zero s = s
drop (suc n) [] = []
drop (suc n) (c ∷ s) = drop n s

unfoldable pub kind_of_segment : Text → Option RefKind
unfolding text_eq
kind_of_segment s =
    if text_eq s (kind_text claims)
    then some claims
    else if text_eq s (kind_text outcomes)
    then some outcomes
    else none

unfoldable pub slot_ref : Option RefKind → Text → Option (RefKind × ℕ)
unfolding is_slot_segment number_of_digits
slot_ref none segment = none
slot_ref (some kind) segment =
    if is_slot_segment segment then some (kind, number_of_digits 0 segment) else none

unfoldable pub tail_ref : List Text → Option (RefKind × ℕ)
unfolding kind_of_segment slot_ref
tail_ref (kind ∷ segment ∷ []) = slot_ref (kind_of_segment kind) segment
tail_ref _ = none

-- `parseLedgerRef` on a reference whose target is an object id.
unfoldable pub parse_ledger_ref : Text → Text → Option (RefKind × ℕ)
unfolding starts_with split_path tail_ref
parse_ledger_ref namespace ref =
    if starts_with ref namespace then tail_ref (split_path (drop (length namespace) ref)) else none
