-- ===== src/AsyncJob/Options.antt =====
-- The options of a start in mcp/ground-control/lib/async-job-registry.js, and their validation.
use ground_control.Prelude.{
  ℕ, Bool, true, false, not, ◌&&◌, ◌||◌, Option, none, some, [], ◌∷◌, if◌then◌else◌, ltb, leb, ◌==◌,
  length, all, is_some,
}
use ground_control.Prelude.Text.{Text}
use ground_control.AsyncJob.Job.{
  Refusal, job_idempotency_input_invalid, job_execution_scope_invalid,
}

-- `retry_stale` is `retryStaleResult`; the null that stands for an absent option is `none`.
pub record Options (R : Type 0) : Type 0 where
  pub idempotency_key : Option Text
  pub idempotency_namespace : Option Text
  pub fingerprint : Option Text
  pub execution_scope : Option Text
  pub single_flight : Bool
  pub cancellable : Bool
  pub retry_stale : Option (Option R → Bool)

-- `[A-Za-z0-9]`
unfoldable pub is_alphanumeric : ℕ → Bool
is_alphanumeric c =
    (leb b'A' c && leb c b'Z') || (leb b'a' c && leb c b'z') || (leb b'0' c && leb c b'9')

-- `[A-Za-z0-9._:-]`
unfoldable pub is_key_unit : ℕ → Bool
unfolding is_alphanumeric
is_key_unit c = is_alphanumeric c || (c == b'.') || (c == b'_') || (c == b':') || (c == b'-')

-- `ASYNC_JOB_IDEMPOTENCY_KEY_RE`
unfoldable pub matches_key : Text → Bool
unfolding is_key_unit
matches_key [] = false
matches_key (c ∷ s) = is_alphanumeric c && all is_key_unit s

-- `[a-f0-9]`
unfoldable pub is_hex : ℕ → Bool
is_hex c = (leb b'a' c && leb c b'f') || (leb b'0' c && leb c b'9')

unfoldable pub is_valid_namespace : Option Text → Bool
is_valid_namespace none = false
is_valid_namespace (some s) = ltb 0 (length s) && leb (length s) 512

unfoldable pub is_valid_fingerprint : Option Text → Bool
unfolding is_hex
is_valid_fingerprint none = false
is_valid_fingerprint (some s) = (length s == 64) && all is_hex s

unfoldable pub is_valid_key : Text → Bool
unfolding matches_key
is_valid_key s = leb (length s) 128 && matches_key s

-- The first branch of `_validateAsyncJobOptions`: the three identity fields come together.
unfoldable pub is_valid_identity : Option Text → Option Text → Option Text → Bool
unfolding is_valid_namespace is_valid_fingerprint is_valid_key
is_valid_identity none namespace fingerprint = not (is_some namespace || is_some fingerprint)
is_valid_identity (some key) namespace fingerprint =
    is_valid_key key && is_valid_namespace namespace && is_valid_fingerprint fingerprint

unfoldable pub is_valid_scope : Option Text → Bool
is_valid_scope none = true
is_valid_scope (some s) = ltb 0 (length s) && leb (length s) 512

-- `_validateAsyncJobOptions`, on options of the right types: the refusal, if any.
unfoldable pub validate : {R : Type 0} → Options R → Option Refusal
unfolding is_valid_identity is_valid_scope
validate o =
    if not (is_valid_identity o.idempotency_key o.idempotency_namespace o.fingerprint)
    then some job_idempotency_input_invalid
    else if not (is_valid_scope o.execution_scope)
    then some job_execution_scope_invalid
    else none
