-- ===== src/Tests.antt =====
-- Runs of the model at concrete inputs, and the theorems at inputs that meet their hypotheses.
mod Data
mod Observations
mod Views
mod Runs
mod Queries
mod KioskData
mod Kiosk
mod KioskRuns
mod Ledger
