-- ===== src/Obligation.antt =====
-- Execution obligations: mcp/ground-control/lib/codex-workflow.js (replay) and
-- mcp/ground-control/lib/execution-obligation-v2.js (re-observation).
pub mod Replay
pub mod Reobservation
pub mod Locality
pub mod Gate
pub mod Trust
pub mod Examples
