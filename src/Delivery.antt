-- ===== src/Delivery.antt =====
-- The handoff of a delivery: mcp/ground-control/lib/delivery-readiness.js.
pub mod Readiness
pub mod Pointer
pub mod Trusted
mod Examples
