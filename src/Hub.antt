-- ===== src/Hub.antt =====
-- The Fleet Hub: crates/fleet-hub.
pub mod State
pub mod Observe
pub mod Rows
pub mod Query
pub mod List
pub mod SavedViews
pub mod Restore
pub mod Events
pub mod Epochs
pub mod Records
pub mod ViewLaws
pub mod ViewDeletion
pub mod ViewWriters
pub mod WellFormed
pub mod RoundTrip
pub mod RestoreFacts
pub mod Restored
pub mod Steps
pub mod Answers
pub mod Sorting
pub mod FieldOrder
pub mod RowOrder
pub mod Newest
pub mod Shown
pub mod Kiosk
