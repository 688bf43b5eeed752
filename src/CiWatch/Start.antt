-- ===== src/CiWatch/Start.antt =====
-- The part of `runWatchCiRun` in mcp/ground-control/lib/ci-watcher.js that comes before its loop: the
use Prim.Native.Nat.{min}
use ground_control.Prelude.{
  ◌*◌, ◌+◌, Option, Bool, ℕ, List, false, true, ◌&&◌, some, ◌∷◌, if◌then◌else◌, ltb, length, [],
  none, not, ◌==◌, suc, all, leb, zero,
}
use ground_control.CiWatch.Watch.{Settings, Loop}
use ground_control.AsyncJob.Options.{is_hex}
use ground_control.CiWatch.Run.{select_runs, database_ids, ListedRun}
use ground_control.Prelude.Text.{Text}

-- validation of the input, the head that the watch is bound to, and the wait for a first run.

-- An option is none for a value of a wrong type; `run_id` is none for null, and its inner option is
-- none for a value that is no whole number.
pub record WatchRequest : Type 0 where
  pub repo_path : Option Text
  pub branch : Option Text
  pub run_id : Option (Option ℕ)
  pub expected_head_sha : Option Text
  pub queued_timeout : Option ℕ
  pub total_timeout : Option ℕ
  pub poll_interval : Option ℕ
  pub registration_timeout : Option ℕ

-- What the host answers: whether the path is a repository and the read is authorized, the clock at
-- the start, the head of the branch (none if the lookup fails or gives no text), and for each turn
-- of the wait the listing (none if it fails) and the clock after it.
pub record WatchHost : Type 0 where
  pub is_repository : Bool
  pub is_authorized : Bool
  pub start_ms : ℕ
  pub branch_head : Option Text
  pub listing : ℕ → Option (List ListedRun)
  pub clock : ℕ → ℕ

-- The refusals, by their code after `ci_watch_`; `not_authorized` is the resolver's own.
pub data StartError : Type 0 where
  input_invalid repo_not_found not_authorized head_sha_invalid : StartError
  head_sha_unresolved run_lookup_failed no_run_for_head_sha : StartError

pub data StartResult : Type 0 where
  refused_start : StartError → StartResult
  started : Settings → Loop → StartResult

unfoldable pub has_text : Option Text → Bool
has_text none = false
has_text (some s) = ltb 0 (length s)

unfoldable pub is_positive_number : Option ℕ → Bool
is_positive_number none = false
is_positive_number (some n) = ltb 0 n

unfoldable pub is_valid_run_id : Option (Option ℕ) → Bool
unfolding is_positive_number
is_valid_run_id none = true
is_valid_run_id (some id) = is_positive_number id

unfoldable pub is_valid_request : WatchRequest → Bool
unfolding has_text is_valid_run_id
is_valid_request q =
    has_text q.repo_path
    && has_text q.branch
    && is_valid_run_id q.run_id
    && is_positive_number q.queued_timeout
    && is_positive_number q.total_timeout
    && is_positive_number q.poll_interval
    && is_positive_number q.registration_timeout

-- `GITHUB_HEAD_SHA_RE`
unfoldable pub is_head_sha : Text → Bool
unfolding is_hex
is_head_sha s = (length s == 40) && all is_hex s

-- The number that a validated field holds.
unfoldable pub seconds_of : Option ℕ → ℕ
seconds_of none = 0
seconds_of (some n) = n

-- `discoveryDeadlineMs`
unfoldable pub deadline_of : WatchRequest → ℕ → ℕ
unfolding seconds_of
deadline_of q start =
    start + min (seconds_of q.registration_timeout) (seconds_of q.total_timeout) * 1000

unfoldable pub settings_of : WatchRequest → ℕ → Option Text → Settings
unfolding deadline_of
settings_of q start head = record {
  start_ms = start;
  deadline_ms = deadline_of q start;
  queued_timeout = seconds_of q.queued_timeout;
  total_timeout = seconds_of q.total_timeout;
  head = head;
}

unfoldable pub first_loop : List ℕ → Bool → Loop
first_loop ids pinned = record { watched = ids; first_queued = []; discovery_closed = pinned }

-- What the wait ends with: a failed lookup, or the runs listed last.
pub data Registered : Type 0 where
  lookup_fails : Registered
  listed_runs : List ListedRun → Registered

-- The wait for a first run, with fuel; `none` means that the fuel ran out.
unfoldable pub register : ℕ → WatchHost → Text → (deadline : ℕ) → ℕ → Option Registered
unfolding select_runs
register zero h sha deadline k = none
register (suc fuel) h sha deadline k =
    let rest = register fuel h sha deadline (suc k) in
    elim (h.listing k) [
      | none ↦ some lookup_fails
      | some runs ↦
          if ltb 0 (length (select_runs runs sha))
          then some (listed_runs (select_runs runs sha))
          else if leb deadline (h.clock k)
          then some (listed_runs [])
          else rest
    ]

unfoldable pub start_on_ids : Settings → List ℕ → StartResult
unfolding first_loop
start_on_ids c [] = refused_start run_lookup_failed
start_on_ids c (id ∷ ids) = started c (first_loop (id ∷ ids) false)

unfoldable pub start_on_runs : Settings → Registered → StartResult
unfolding start_on_ids database_ids
start_on_runs c lookup_fails = refused_start run_lookup_failed
start_on_runs c (listed_runs []) = refused_start no_run_for_head_sha
start_on_runs c (listed_runs (r ∷ rs)) = start_on_ids c (database_ids (r ∷ rs))

unfoldable pub start_on_head : ℕ → WatchRequest → WatchHost → Text → Option StartResult
unfolding register start_on_runs settings_of is_head_sha
start_on_head fuel q h sha =
    if is_head_sha sha
    then elim (register fuel h sha (deadline_of q h.start_ms) 0) [
      | none ↦ none
      | some r ↦ some (start_on_runs (settings_of q h.start_ms (some sha)) r)
    ]
    else some (refused_start head_sha_unresolved)

-- `expectedHeadSha`, where the empty text counts as none.
unfoldable pub expected_head : Option Text → Option Text
expected_head none = none
expected_head (some []) = none
expected_head (some (c ∷ s)) = some (c ∷ s)

unfoldable pub or_head : Option Text → Option Text → Option Text
or_head none b = b
or_head (some a) b = some a

unfoldable pub start_bound :
    ℕ → WatchRequest → WatchHost → Option Text → Option (Option ℕ) → Option StartResult
unfolding start_on_head or_head first_loop settings_of
start_bound fuel q h head (some id) =
    some (started (settings_of q h.start_ms head) (first_loop (seconds_of id ∷ []) true))
start_bound fuel q h head none = elim (or_head head h.branch_head) [
  | none ↦ some (refused_start head_sha_unresolved)
  | some sha ↦ start_on_head fuel q h sha
]

unfoldable pub is_bad_head : Option Text → Bool
unfolding is_head_sha
is_bad_head none = false
is_bad_head (some s) = not (is_head_sha s)

unfoldable pub start_watch : ℕ → WatchRequest → WatchHost → Option StartResult
unfolding is_valid_request expected_head is_bad_head start_bound
start_watch fuel q h =
    if not (is_valid_request q)
    then some (refused_start input_invalid)
    else if not h.is_repository
    then some (refused_start repo_not_found)
    else if not h.is_authorized
    then some (refused_start not_authorized)
    else if is_bad_head (expected_head q.expected_head_sha)
    then some (refused_start head_sha_invalid)
    else start_bound fuel q h (expected_head q.expected_head_sha) q.run_id
