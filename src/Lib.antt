-- ===== src/Lib.antt =====
-- A verification library for the gates of the Ground Control MCP server (mcp/ground-control/lib).
--
-- The server runs the delivery workflow of a repository for an agent: it starts reviews and other
-- long work as background jobs, bounds how often a review may run, records what could not be
-- observed as obligations on the issue thread, edits issue dependencies, reserves the versions and
-- paths of released artifacts in a log of Git references, watches CI and the other remote gates, and
-- hands a delivery over to the merge. The parts meet in data, not in calls: a review that renders no
-- verdict is tried again (Review) and opens an obligation (Obligation); long calls, the CI watch among
-- them, run as jobs (AsyncJob).
--
-- The parts:
--   Prelude     shared names, Boolean tests, lists, text and integers.
--   AsyncJob    mcp/ground-control/lib/async-job-registry.js. Job is the job object and its envelope,
--               Options the validation of a start, Handle the handles, Registry the map with
--               startAsyncJob, pollAsyncJob, cancelAsyncJob and the progress report, Settling the
--               promise chain, awaitAsyncJob and the type of all events; Evolution, Lifecycle,
--               Capacity, Exclusion, Attempts, Shown, Polling and Waiting hold the proofs.
--   Obligation  Replay is evaluateExecutionObligations of codex-workflow.js with
--               canReobservationClose of execution-obligation-v2.js, Reobservation is
--               hasVerifiedStationReobservation; Locality, Gate and Trust hold the proofs.
--   Review      Cap is the three cycle caps of api-requirements.js, repo-context-2.js and
--               codex-verify-cap.js, Markers the markers that are counted before a push, Gate the two
--               gates of codex-review-cap.js, Reattempt the retry loop of review-reattempt.js; Budget, Passage and Retrying hold the proofs.
--   Dependency  issue-dependency.js: Issue is the data, Tool the mutation, Run the whole tool;
--               Redaction, Mutation, Again and Access hold the proofs.
--   CiWatch     Run is one CI run with the poll decision of doc-coverage.js, Start and Watch are
--               runWatchCiRun in ci-watcher.js before its loop and in it, Gates is
--               evaluateRemoteChecks of remote-gates.js and sonar-gate.js; Registration, Passed,
--               Rounds, Verdict, Termination and GateLaws hold the proofs.
--   Ledger      release-identity-ledger.js, release-identity-config.js and release-identity.js. Names are
--               the references and isSafeGitRefName of repo-context.js, Template and Family the
--               families and their rendering, Event the events and their messages, Fold is
--               foldReleaseLedger, Claim what a run writes, without its calls; Calls is the interface
--               to GitHub with createLedgerRef, View is toView, Operation the checks before a claim,
--               Reserve, Transition and Status the operations. Race is the log with several runs:
--               a step creates a claim or an outcome from what a run has read in an earlier state.
--               Log, Validity, Bare, Race/*, RefNames, Runs, Replies, Observed, Decided, Settled and
--               Creation hold the proofs.
--   Delivery    delivery-readiness.js: Readiness is readTrustedDeliveryReadiness, Pointer is
--               readTrustedDeliveryPointer; Trusted holds the proofs on the former.
-- The Examples of each part apply its theorems at concrete inputs.
--
-- How the code is read:
--   A text is the list of its code units. A value that may be null or of a wrong type is an option.
--   Numbers are exact; times are in milliseconds, and a synchronous operation reads the clock once.
--   The jobs are kept in the order of creation, and `mapped` says whether an object is in the map;
--   the closures of a job go on to change an object that has left it. The reactions of the promise
--   chain and the timers come as events in any order, guarded only as far as promises settle once
--   and finally comes after that.
--   detectSensitiveBodyContent and boundFailureMessage are parameters (Scrubber), as is toLowerCase,
--   and GitHub is a parameter of the dependency tool (Api), of which nothing is assumed except, in
--   one theorem, that listing changes nothing. What the review gates and the CI watch read from
--   GitHub is their input, for the watch one reading a round.
--   In the ledger an object id is a number. A message has the fields of its subject line and the event
--   that its text decodes to; the JSON text, its length, the SHA-256 digest of a family and
--   toLowerCase are a parameter (Codec). Reservations are kept newest first, and a call that throws
--   ends the run (threw), which runReleaseIdentity reports as a failure of GitHub. GitHub, the
--   checkout and the issue records are a parameter (Api); of it the theorems assume nothing but, for
--   createLedgerRef, that a creation and a read tell what the reference is. In Race the references are
--   classified, a create succeeds only where the slot is free, and no reference or commit is removed.
--   The markers of a comment are parsed already; SHA-256, the test for a JSON object and the trust in an
--   author are a parameter (Outside).
--   Human messages, log summaries and fields that repeat the input are left out; an error is its
--   code. Diagnostics are their JSON text. The sort of the open obligations is an insertion sort.
--
-- Fuel: the retry loop has fuel 3, one more than the largest limit, and always returns. The CI watch
-- and the wait before it take their fuel as an argument; a round past the deadlines ends them, so that
-- fuel for the rounds up to that one is enough. A reservation has 8 attempts and a publication 3
-- observations, as in the code, and then is refused; the digits of a number n have fuel n + 1.
--
-- Not modelled: the text of markers and its parsing, a station attempt that throws, the fingerprint of job inputs, the reading and
-- caching of remote gates, the input checks and the issue records of the release identities, and the
-- rest of the server, of which the slicing of diffs holds the most logic.
pub mod Prelude
pub mod AsyncJob
pub mod Obligation
pub mod Review
pub mod Dependency
pub mod CiWatch
pub mod Ledger
pub mod Delivery
