-- ===== src/Ledger/RefNames.antt =====
-- `releaseLedgerRef` and `parseLedgerRef` of mcp/ground-control/lib/release-identity-ledger.js, one
-- after the other.
use Prim.Native.Nat.{◌^◌}
use ground_control.Prelude.{
  arith, ℕ, ◌++◌, ◌<◌, ◌≤◌, ◌≡◌, length, suc, ◌⊎◌, all, ◌+◌, true, ◌∷◌, Bool-cases, inl, ap, ◌/◌,
  ltb, ◌∙◌, ◌==◌, [], zero, ◌%◌, lt→ltb, ltb→lt, inr, false, refl, leb, ◌*◌, sym, some,
}
use ground_control.Ledger.Names.{
  starts_with, decimal_from, number_of_digits, is_digit_unit, drop, is_slot_segment, split_path,
  kind_of_segment, parse_ledger_ref, decimal, add_to_first, RefKind, release_ledger_ref, kind_text,
  tail_ref, slot_ref, claims, ledger_namespace, outcomes,
}
use ground_control.Prelude.Text.{Text}
use ground_control.Ledger.Race.Outcomes.{if_true, if_false}
use ground_control.Ledger.Race.Claims.{==_refl, ltb-false}
use ground_control.Ledger.Validity.{and-true}

pub starts_with-append : (p s : Text) → starts_with (p ++ s) p ≡ true
unfolding starts_with
starts_with-append [] [] = refl
starts_with-append [] (c ∷ s) = refl
starts_with-append (c ∷ p) s = rw (==_refl c, starts_with-append p s) refl

pub drop-append : (p s : Text) → drop (length p) (p ++ s) ≡ s
drop-append [] s = refl
drop-append (c ∷ p) s = drop-append p s

-- One step of the decimal digits, from the last one.
decimal_from-small :
    (fuel n : ℕ) (rest : Text) → n < 10 → decimal_from (suc fuel) n rest ≡ (n + b'0') ∷ rest
unfolding decimal_from
decimal_from-small fuel n rest small = if_true (ltb n 10) _ _ (lt→ltb n 10 small)

decimal_from-large :
    (fuel n : ℕ) (rest : Text)
    → 10 ≤ n
    → decimal_from (suc fuel) n rest ≡ decimal_from fuel (n / 10) ((n % 10 + b'0') ∷ rest)
unfolding decimal_from
decimal_from-large fuel n rest large = if_false (ltb n 10) _ _ (ground (arith, large))

pub small_or_large : (n : ℕ) → (n < 10) ⊎ (10 ≤ n)
small_or_large n = elim (Bool-cases (ltb n 10)) [
  | inl h ↦ inl (ltb→lt n 10 h)
  | inr h ↦ inr (ltb-false n 10 h)
]

-- `Number(String(n))`
pub number_of_digits-decimal_from :
    (fuel n : ℕ) (rest : Text)
    → n < fuel
    → number_of_digits 0 (decimal_from fuel n rest) ≡ number_of_digits n rest
unfolding number_of_digits
number_of_digits-decimal_from zero n rest h = absurd (omega (arith, h))
number_of_digits-decimal_from (suc fuel) n rest h = elim (small_or_large n) [
  | inl small ↦
      ap (number_of_digits 0) (decimal_from-small fuel n rest small)
      ∙ ap (λ k. number_of_digits k rest) (omega arith)
  | inr large ↦
      ap (number_of_digits 0) (decimal_from-large fuel n rest large)
      ∙ number_of_digits-decimal_from fuel (n / 10) ((n % 10 + b'0') ∷ rest)
          (omega (arith, h, large))
      ∙ ap (λ k. number_of_digits k rest) (omega arith)
]

digit_lem : (n : ℕ) → n < 10 → is_digit_unit (n + b'0') ≡ true
unfolding is_digit_unit
digit_lem n small = ground (arith, small)

pub all-decimal_from :
    (fuel n : ℕ) (rest : Text)
    → n < fuel
    → all is_digit_unit rest ≡ true
    → all is_digit_unit (decimal_from fuel n rest) ≡ true
all-decimal_from zero n rest h digits = absurd (omega (arith, h))
all-decimal_from (suc fuel) n rest h digits = elim (small_or_large n) [
  | inl small ↦
      ap (all is_digit_unit) (decimal_from-small fuel n rest small)
      ∙ rw (digit_lem n small, digits) refl
  | inr large ↦
      ap (all is_digit_unit) (decimal_from-large fuel n rest large)
      ∙ all-decimal_from fuel (n / 10) ((n % 10 + b'0') ∷ rest) (omega (arith, h, large))
          (rw (digit_lem (n % 10) (omega arith), digits) refl)
]

-- The digits of a number from 1 begin with another digit than 0.
pub head-decimal_from :
    (fuel n : ℕ) (rest : Text)
    → n < fuel
    → 1 ≤ n
    → (c : ℕ) × (s : Text) × (decimal_from fuel n rest ≡ c ∷ s) × ((c == b'0') ≡ false)
head-decimal_from zero n rest h one = absurd (omega (arith, h))
head-decimal_from (suc fuel) n rest h one = elim (small_or_large n) [
  | inl small ↦ (n + b'0', rest, decimal_from-small fuel n rest small, ground (arith, one))
  | inr large ↦
      let (c, s, e, d) =
        head-decimal_from fuel (n / 10) ((n % 10 + b'0') ∷ rest) (omega (arith, h, large))
          (omega (arith, large)) in
      (c, s, decimal_from-large fuel n rest large ∙ e, d)
]

tenth_lem : (d n : ℕ) → n < 10 ^ suc (suc d) → n / 10 < 10 ^ suc d
tenth_lem d n h = let e : 10 ^ suc (suc d) ≡ 10 * 10 ^ suc d = omega arith in omega (arith, h, e)

leb_lem : (m n : ℕ) → m ≤ n → leb m n ≡ true
leb_lem m n h = ground (arith, h)

tail_short : (t : Text) (c : ℕ) (s : Text) → t ≡ c ∷ s → length t ≤ 5 → length s ≤ 4
tail_short t c s e h = let e' = ap length e in omega (arith, e', h)

-- A number below 10 ^ (d + 1) has at most d + 1 digits.
pub length-decimal_from :
    (d fuel n : ℕ) (rest : Text)
    → n < fuel
    → n < 10 ^ (suc d)
    → length (decimal_from fuel n rest) ≤ suc d + length rest
length-decimal_from d zero n rest h bound = absurd (omega (arith, h))
length-decimal_from zero (suc fuel) n rest h bound =
    let e = ap length (decimal_from-small fuel n rest (omega (arith, bound))) in omega (arith, e)
length-decimal_from (suc d) (suc fuel) n rest h bound = elim (small_or_large n) [
  | inl small ↦ let e = ap length (decimal_from-small fuel n rest small) in omega (arith, e)
  | inr large ↦
      let e = ap length (decimal_from-large fuel n rest large) in
      let shorter =
        length-decimal_from d fuel (n / 10) ((n % 10 + b'0') ∷ rest) (omega (arith, h, large))
          (tenth_lem d n bound) in
      omega (arith, e, shorter)
]

-- The digits of a slot make a segment of a reference.
decimal-slot_segment : (n : ℕ) → 1 ≤ n → n < 100000 → is_slot_segment (decimal n []) ≡ true
unfolding is_slot_segment decimal
decimal-slot_segment n one small =
    let (c, s, e, head) = head-decimal_from (suc n) n [] (omega arith) one in
    let digits =
      sym (ap (all is_digit_unit) e) ∙ all-decimal_from (suc n) n [] (omega arith) refl in
    let (first, others) = and-true (is_digit_unit c) (all is_digit_unit s) digits in
    let short = length-decimal_from 4 (suc n) n [] (omega arith) (omega (arith, small)) in
    let size : leb (length s) 4 ≡ true = leb_lem _ _ (tail_short _ c s e short) in
    ap is_slot_segment e ∙ rw (first, head, others, size) refl

no_slash : (c : ℕ) → is_digit_unit c ≡ true → (c == b'/') ≡ false
unfolding is_digit_unit
no_slash c h = ground (arith, h)

-- Digits have no slash.
split_path_digits : (s : Text) → all is_digit_unit s ≡ true → split_path s ≡ s ∷ []
unfolding split_path add_to_first
split_path_digits [] digits = refl
split_path_digits (c ∷ s) digits =
    let (first, others) = and-true (is_digit_unit c) (all is_digit_unit s) digits in
    rw (no_slash c first, split_path_digits s others) refl

split_path_ref :
    (kind : RefKind) (s : Text)
    → split_path (kind_text kind ++ b'/' ∷ s) ≡ kind_text kind ∷ split_path s
unfolding split_path add_to_first
split_path_ref claims s = refl
split_path_ref outcomes s = refl

kind_of_segment_lem : (kind : RefKind) → kind_of_segment (kind_text kind) ≡ some kind
unfolding kind_of_segment
kind_of_segment_lem claims = refl
kind_of_segment_lem outcomes = refl

append_assoc : (a b c : Text) → (a ++ b) ++ c ≡ a ++ (b ++ c)
append_assoc [] b c = refl
append_assoc (x ∷ a) b c = ap (λ t. x ∷ t) (append_assoc a b c)

parse_at :
    (namespace : Text) (kind : RefKind) (digits : Text)
    → all is_digit_unit digits ≡ true
    → is_slot_segment digits ≡ true
    → parse_ledger_ref namespace (namespace ++ kind_text kind ++ b'/' ∷ digits)
      ≡ some (kind, number_of_digits 0 digits)
unfolding parse_ledger_ref tail_ref slot_ref
parse_at namespace kind digits all_digits good =
    let tail = kind_text kind ++ b'/' ∷ digits in
    let split : split_path tail ≡ kind_text kind ∷ digits ∷ [] =
      split_path_ref kind digits
      ∙ ap (λ l. kind_text kind ∷ l) (split_path_digits digits all_digits) in
    ap (parse_ledger_ref namespace) (append_assoc namespace (kind_text kind) (b'/' ∷ digits))
    ∙ if_true (starts_with (namespace ++ tail) namespace) _ _ (starts_with-append namespace tail)
    ∙ ap (λ t. tail_ref (split_path t)) (drop-append namespace tail)
    ∙ ap tail_ref split
    ∙ ap (λ k. slot_ref k digits) (kind_of_segment_lem kind)
    ∙ if_true (is_slot_segment digits) _ _ good

-- The reference of a slot from 1 to 99999 is read back as its kind and its slot, in every family.
pub parse_ledger_ref-release_ledger_ref :
    (family : Text) (kind : RefKind) (slot : ℕ)
    → 1 ≤ slot
    → slot < 100000
    → parse_ledger_ref (ledger_namespace family) (release_ledger_ref family kind slot)
      ≡ some (kind, slot)
unfolding release_ledger_ref decimal number_of_digits
parse_ledger_ref-release_ledger_ref family kind slot one small =
    parse_at (ledger_namespace family) kind (decimal slot [])
      (all-decimal_from (suc slot) slot [] (omega arith) refl) (decimal-slot_segment slot one small)
    ∙ ap (λ n. some (kind, n)) (number_of_digits-decimal_from (suc slot) slot [] (omega arith))
