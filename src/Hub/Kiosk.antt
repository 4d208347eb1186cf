-- ===== src/Hub/Kiosk.antt =====
-- The Kiosk show-controls operations of the Hub: crates/fleet-hub/src/kiosk.rs.
pub mod Guards
pub mod Preflight
pub mod Preview
pub mod Confirm
pub mod Dispatch
pub mod Attempt
pub mod Cancel
pub mod Queries
pub mod Changes
pub mod Effects
pub mod Calls
pub mod Steps
pub mod Protocol
pub mod Soundness
pub mod Refinement
pub mod Paths
pub mod Runs
pub mod Ready
pub mod Reached
pub mod Limits
pub mod Replay
pub mod EndedLedger
pub mod EndedOperation
pub mod Ending
