-- ===== src/Ledger.antt =====
-- The release identities: mcp/ground-control/lib/release-identity-config.js,
-- mcp/ground-control/lib/release-identity-ledger.js and mcp/ground-control/lib/release-identity.js.
pub mod Names
pub mod Template
pub mod Family
pub mod Event
pub mod Fold
pub mod Claim
pub mod Log
pub mod Validity
pub mod Bare
pub mod Race
pub mod RefNames
pub mod View
pub mod Calls
pub mod Operation
pub mod Reserve
pub mod Transition
pub mod Status
pub mod Runs
pub mod Replies
pub mod Observed
pub mod Decided
pub mod Settled
pub mod Creation
mod Examples
mod RunExamples
