-- ===== src/Dependency.antt =====
-- mcp/ground-control/lib/issue-dependency.js
pub mod Issue
pub mod Tool
pub mod Run
pub mod Redaction
pub mod Mutation
pub mod Again
pub mod Access
pub mod Examples
