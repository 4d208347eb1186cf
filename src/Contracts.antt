-- ===== src/Contracts.antt =====
-- Contract validation: crates/fleet-contracts/src/lib.rs. A contract is checked by collecting its
-- violations in order; `finish` turns an empty collection into success.
pub mod Condition
pub mod Capability
pub mod Identity
pub mod Query
pub mod QueryShape
pub mod Command
pub mod OperationLedger
pub mod OperationLedgerFacts
pub mod Lifecycle
pub mod ViewId
pub mod SavedView
pub mod SavedViewFacts
pub mod Projection
pub mod Kiosk
pub mod KioskLifecycle
pub mod KioskOwner
pub mod KioskRequest
pub mod KioskPreview
pub mod KioskEquality
pub mod KioskLedger
pub mod KioskOperation
pub mod KioskFacts
pub mod KioskLedgerFacts
pub mod Violation
