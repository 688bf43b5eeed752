-- ===== src/AsyncJob/Handle.antt =====
-- The job handles of mcp/ground-control/lib/async-job-registry.js: how they are made from the clock
-- and the counter, and the test that a handle from outside has to pass.
use Prim.Native.Nat.{◌^◌}
use native.Mathlib.Nat.{pow-suc}
use ground_control.Prelude.{
  ℕ, zero, suc, ◌+◌, ◌-◌, ◌*◌, ◌/◌, ◌%◌, ◌≤◌, ◌<◌, ◌≡◌, ap, ◌∙◌, Bool, true, false, ◌&&◌, ◌||◌, [],
  ◌∷◌, arith, ltb, leb, ◌==◌, if◌then◌else◌, Bool-cases, inl, inr, length, sym,
}
use ground_control.Prelude.Text.{Text}

-- One digit of `toString(36)`.
unfoldable pub digit : ℕ → ℕ
digit n = if ltb n 10 then n + 48 else n + 87

-- The digits of `n` in front of `rest`, the most significant first, with fuel above `n`.
unfoldable pub to_base36_from : ℕ → ℕ → Text → Text
unfolding digit
to_base36_from zero n rest = rest
to_base36_from (suc fuel) n rest =
    let more = to_base36_from fuel (n / 36) (digit (n % 36) ∷ rest) in
    if ltb n 36 then digit n ∷ rest else more

-- `n.toString(36)` in front of `rest`
unfoldable pub to_base36 : ℕ → Text → Text
unfolding to_base36_from
to_base36 n rest = to_base36_from (suc n) n rest

-- `job-${now.toString(36)}-${_asyncJobSeq.toString(36)}`
unfoldable pub job_id : ℕ → ℕ → Text
unfolding to_base36
job_id now seq = b'j' ∷ b'o' ∷ b'b' ∷ b'-' ∷ to_base36 now (b'-' ∷ to_base36 seq [])

-- `[a-z0-9]`
unfoldable pub is_base36 : ℕ → Bool
is_base36 c = (leb b'0' c && leb c b'9') || (leb b'a' c && leb c b'z')

-- The second run of digits, up to the end.
unfoldable pub is_last_run : Bool → Text → Bool
unfolding is_base36
is_last_run seen [] = seen
is_last_run seen (c ∷ s) = is_base36 c && is_last_run true s

-- The first run of digits, up to its dash.
unfoldable pub is_first_run : Bool → Text → Bool
unfolding is_last_run
is_first_run seen [] = false
is_first_run seen (c ∷ s) =
    if c == b'-' then seen && is_last_run false s else is_base36 c && is_first_run true s

-- `ASYNC_JOB_ID_RE`
unfoldable pub matches_id : Text → Bool
unfolding is_first_run
matches_id (a ∷ b ∷ c ∷ d ∷ s) =
    (a == b'j') && (b == b'o') && (c == b'b') && (d == b'-') && is_first_run false s
matches_id _ = false

abbrev pub async_job_id_max : ℕ
async_job_id_max = 80

-- The handle check at the head of `pollAsyncJob` and `cancelAsyncJob`.
unfoldable pub is_handle : Text → Bool
unfolding matches_id
is_handle s = leb (length s) async_job_id_max && matches_id s

-- The counter that a handle ends in: each dash starts the number anew.
seq_of : ℕ → Text → ℕ
seq_of acc [] = acc
seq_of acc (c ∷ s) =
    seq_of (if c == b'-' then 0 else acc * 36 + (if ltb c 58 then c - 48 else c - 87)) s

seq_of-digit : (acc n : ℕ) (s : Text) → n < 36 → seq_of acc (digit n ∷ s) ≡ seq_of (acc * 36 + n) s
unfolding seq_of digit
seq_of-digit acc n s h = ap (λ k. seq_of k s) (ground arith)

seq_of-to_base36_from :
    (fuel n : ℕ) (rest : Text) → n < fuel → seq_of 0 (to_base36_from fuel n rest) ≡ seq_of n rest
unfolding to_base36_from
seq_of-to_base36_from zero n rest h = elim h [ ]
seq_of-to_base36_from (suc fuel) n rest h = elim (Bool-cases (ltb n 36)) [
  | inl small ↦
      rw small (seq_of-digit 0 n rest (ground arith) ∙ ap (λ k. seq_of k rest) (omega arith))
  | inr large ↦ rw large (
      seq_of-to_base36_from fuel (n / 36) (digit (n % 36) ∷ rest) (ground arith)
      ∙ seq_of-digit (n / 36) (n % 36) rest (omega arith)
      ∙ ap (λ k. seq_of k rest) (omega arith))
]

seq_of-job_id : (now seq : ℕ) → seq_of 0 (job_id now seq) ≡ seq
unfolding job_id seq_of
seq_of-job_id now seq =
    seq_of-to_base36_from (suc now) now (b'-' ∷ to_base36 seq []) (omega arith)
    ∙ seq_of-to_base36_from (suc seq) seq [] (omega arith)

-- Two handles are equal only if they were made from the same counter.
pub job_id-injective : (now now' seq seq' : ℕ) → job_id now seq ≡ job_id now' seq' → seq ≡ seq'
job_id-injective now now' seq seq' e =
    sym (seq_of-job_id now seq) ∙ ap (seq_of 0) e ∙ seq_of-job_id now' seq'

is_base36-digit : (n : ℕ) → n < 36 → (is_base36 (digit n) ≡ true) × ((digit n == b'-') ≡ false)
unfolding is_base36 digit
is_base36-digit n h = ground arith

is_first_run-digit :
    (seen : Bool) (n : ℕ) (rest : Text)
    → n < 36
    → is_first_run seen (digit n ∷ rest) ≡ is_first_run true rest
unfolding is_first_run
is_first_run-digit seen n rest h = ground (arith, is_base36-digit n)

is_first_run-to_base36_from :
    (fuel : ℕ) (seen : Bool) (n : ℕ) (rest : Text)
    → n < fuel
    → is_first_run seen (to_base36_from fuel n rest) ≡ is_first_run true rest
unfolding to_base36_from
is_first_run-to_base36_from zero seen n rest h = elim h [ ]
is_first_run-to_base36_from (suc fuel) seen n rest h = elim (Bool-cases (ltb n 36)) [
  | inl small ↦ rw small (is_first_run-digit seen n rest (ground arith))
  | inr large ↦ rw large (
      is_first_run-to_base36_from fuel seen (n / 36) (digit (n % 36) ∷ rest) (ground arith)
      ∙ is_first_run-digit true (n % 36) rest (omega arith))
]

is_last_run-digit :
    (seen : Bool) (n : ℕ) (rest : Text)
    → n < 36
    → is_last_run seen (digit n ∷ rest) ≡ is_last_run true rest
unfolding is_last_run
is_last_run-digit seen n rest h = ground (arith, is_base36-digit n)

is_last_run-to_base36_from :
    (fuel : ℕ) (seen : Bool) (n : ℕ) (rest : Text)
    → n < fuel
    → is_last_run seen (to_base36_from fuel n rest) ≡ is_last_run true rest
unfolding to_base36_from
is_last_run-to_base36_from zero seen n rest h = elim h [ ]
is_last_run-to_base36_from (suc fuel) seen n rest h = elim (Bool-cases (ltb n 36)) [
  | inl small ↦ rw small (is_last_run-digit seen n rest (ground arith))
  | inr large ↦ rw large (
      is_last_run-to_base36_from fuel seen (n / 36) (digit (n % 36) ∷ rest) (ground arith)
      ∙ is_last_run-digit true (n % 36) rest (omega arith))
]

matches_id-job_id : (now seq : ℕ) → matches_id (job_id now seq) ≡ true
unfolding matches_id job_id
matches_id-job_id now seq =
    is_first_run-to_base36_from (suc now) false now (b'-' ∷ to_base36 seq []) (omega arith)
    ∙ is_last_run-to_base36_from (suc seq) false seq [] (omega arith)

-- A number below 36 ^ (k + 1) has at most k + 1 digits.
length-to_base36_from :
    (fuel k n : ℕ) (rest : Text)
    → n < 36 ^ suc k
    → length (to_base36_from fuel n rest) ≤ suc k + length rest
unfolding to_base36_from
length-to_base36_from zero k n rest h = omega arith
length-to_base36_from (suc fuel) zero n rest h = ground arith
length-to_base36_from (suc fuel) (suc k) n rest h = elim (Bool-cases (ltb n 36)) [
  | inl small ↦ rw small (omega arith)
  | inr large ↦
      let fewer : n / 36 < 36 ^ suc k = omega (arith, pow-suc 36 (suc k)) in
      rw large (omega (arith, length-to_base36_from fuel k (n / 36) (digit (n % 36) ∷ rest) fewer))
]

-- Every clock reading and counter below 36 ^ 11, past the integers that JavaScript holds exactly,
-- gives a handle that the check accepts.
pub is_handle-job_id :
    (now seq : ℕ) → now < 36 ^ 11 → seq < 36 ^ 11 → is_handle (job_id now seq) ≡ true
unfolding is_handle job_id
is_handle-job_id now seq h k = ground (
  arith,
  matches_id-job_id now seq,
  length-to_base36_from (suc now) 10 now (b'-' ∷ to_base36 seq []) h,
  length-to_base36_from (suc seq) 10 seq [] k,
)
