-- ===== src/Ledger/Calls.antt =====
-- The calls of GitHub and of the checkout that mcp/ground-control/lib/release-identity.js makes, and
-- `createLedgerRef` of mcp/ground-control/lib/release-identity-ledger.js.
use ground_control.Prelude.{Option, ℕ, List, Bool, some, if◌then◌else◌, none, ◌==◌}
use ground_control.Ledger.Fold.{Commit, RefEntry}
use ground_control.Ledger.Event.{Sha, Message}
use ground_control.Prelude.Text.{Text}
use ground_control.Ledger.Family.{Family}
use ground_control.Ledger.View.{View}

-- A call in a world that it may change; it answers none where it throws.
abbrev pub Call : Type 0 → Type 0 → Type 0
Call W A = W → W × Option A

pub record Head : Type 0 where
  pub sha : Sha
  pub tree : Sha

-- `entry.kind`, with the object of a regular file.
pub data Entry : Type 0 where
  absent other_kind : Entry
  file : Sha → Entry

pub record IssueRead : Type 0 where
  pub number : ℕ
  pub is_pull_request : Bool
  pub is_open : Bool

-- What `parseGroundControlYaml` reads of a configuration: the repository that it declares and the
-- family, if it has it.
pub record Declared : Type 0 where
  pub github_repo : Option Text
  pub family : Option Family

-- What `api` and the helpers of the checkout and of the issue records offer.
pub record Api (W : Type 0) : Type 0 where
  pub list_refs : Call W (List RefEntry)
  pub read_commit : W → Sha → Option Commit
  pub create_commit : Message → (tree parent : Sha) → Call W Sha
  pub create_ref : Text → Sha → Call W (Unit {0})
  pub read_ref : Text → Call W (Option Sha)
  pub read_issue : ℕ → Call W (Option IssueRead)
  pub branch_head : Text → Call W (Option Head)
  pub lookup_path : Sha → Text → Call W Entry
  pub read_blob_text : Sha → Call W (Option Text)
  pub read_active_branch : Call W (Option Text)
  pub is_trusted_run_branch : ℕ → Text → Call W Bool
  pub ensure_records : View → Call W Bool

pub data Refusal : Type 0 where
  log_malformed write_undecided allocation_contended : Refusal
  issue_not_an_issue issue_not_open run_not_authorized : Refusal
  config_invalid family_not_configured : Refusal
  base_branch_missing base_repo_mismatch family_not_on_base base_unstable : Refusal
  exhausted escapes_checkout collision unrepresentable_identity : Refusal
  reservation_not_found : Refusal
  records_failed : View → Refusal
  already_published already_abandoned : View → Refusal
  artifacts_missing : (missing : List Text) → View → Refusal

pub data Result (A : Type 0) : Type 0 where
  done : A → Result A
  refused : Refusal → Result A
  threw : Result A

abbrev pub Run : Type 0 → Type 0 → Type 0
Run W A = W → W × Result A

unfoldable pub step_on : {W A B : Type 0} → (A → Run W B) → W → Result A → W × Result B
step_on f w (done a) = f a w
step_on f w (refused e) = (w, refused e)
step_on f w threw = (w, threw)

infixl 5 ◌>>=◌
unfoldable pub ◌>>=◌ : {W A B : Type 0} → Run W A → (A → Run W B) → Run W B
unfolding step_on
(m >>= f) w = step_on f (m w).0 (m w).1

abbrev pub answer : {W A : Type 0} → A → Run W A
answer a w = (w, done a)

abbrev pub refuse : {W A : Type 0} → Refusal → Run W A
refuse e w = (w, refused e)

unfoldable pub of_option : {A : Type 0} → Option A → Result A
of_option none = threw
of_option (some a) = done a

abbrev pub call : {W A : Type 0} → Call W A → Run W A
unfolding of_option
call c w = ((c w).0, of_option (c w).1)

pub data Created : Type 0 where
  created taken undecided : Created

-- How `current` decides a creation that threw.
unfoldable pub decide_created : Sha → Option (Option Sha) → Created
decide_created sha none = undecided
decide_created sha (some none) = undecided
decide_created sha (some (some current)) = if current == sha then created else taken

module _ {W : Type 0} (api : Api W) where
  unfoldable pub after_create : Text → Sha → W × Option (Unit {0}) → W × Created
  unfolding decide_created
  after_create ref sha (w, some _) = (w, created)
  after_create ref sha (w, none) =
      let (w', current) = api.read_ref ref w in (w', decide_created sha current)

  -- `createLedgerRef`
  unfoldable pub create_ledger_ref : Text → Sha → W → W × Created
  unfolding after_create
  create_ledger_ref ref sha w = after_create ref sha (api.create_ref ref sha w)

  abbrev pub creating : Text → Sha → Run W Created
  unfolding create_ledger_ref
  creating ref sha w = let (w', c) = create_ledger_ref ref sha w in (w', done c)
