-- ===== src/CiWatch.antt =====
-- The CI gates: mcp/ground-control/lib/ci-watcher.js with its helpers in
-- mcp/ground-control/lib/doc-coverage.js,
-- mcp/ground-control/lib/remote-gates.js and mcp/ground-control/lib/sonar-gate.js.
pub mod Run
pub mod Watch
pub mod Start
pub mod Registration
pub mod Passed
pub mod Rounds
pub mod Verdict
pub mod Termination
pub mod Gates
pub mod GateLaws
pub mod Examples
