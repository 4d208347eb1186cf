-- ===== src/Lib.antt =====
-- Rusty Fleet: a verification library.
--
-- Rusty Fleet keeps a directory of headsets. Each headset sends signed check-ins; the Hub validates
-- the observation in each one, decides whether it is later than what it has, keeps the newest record
-- of each device with bounded evidence, logs every decision, and answers queries, summaries and
-- watches from that state. Operators share saved views, which writers change by compare-and-swap on
-- a revision. Kiosk operations freeze a set of devices in a preview, are confirmed, and then dispatch
-- bounded attempts to the owner of each device until a signed receipt proves the effect. The state
-- is written out as a snapshot and restored with checks.
--
-- The files and what they model:
--   Prelude: Boolean tests, native signed integers (i64 with saturating subtraction), u64 with
--     saturating and checked addition, lists, Result with `?` as a bind, strings.
--   Order, BTreeMap: three-way comparisons, and Rust's ordered map as a sorted association list.
--   Contracts: crates/fleet-contracts/src. Condition (condition.rs), Capability (capability.rs),
--     Identity (identity.rs), Query and QueryShape (query.rs), Command, Lifecycle, OperationLedger
--     and OperationLedgerFacts (command.rs), ViewId, SavedView, SavedViewFacts and Projection
--     (projection.rs), Violation (lib.rs). Of kiosk.rs: Kiosk is the structs and derived_lifecycle,
--     KioskOwner the pinned owner contract and the receipts, KioskRequest the two requests,
--     KioskEquality the derived equalities, KioskPreview the preflights and the preview, KioskLedger
--     and KioskOperation the contracts of a target's ledger and of the operation; KioskLifecycle,
--     KioskFacts and KioskLedgerFacts hold proofs on them. `impl ValidateContract for T` is a
--     function validate_* that returns `ok tt` or the failures in the source's order.
--   Hub: crates/fleet-hub/src/lib.rs. State is the struct FleetHub; Observe is accept_observation
--     and record_event; Rows is row and newest_conditions; Query is evaluate and its comparisons;
--     List is list, summary and watch; SavedViews is the four operations on saved views; Restore is
--     snapshot and restore. A method on `&mut self` takes the Hub and returns the next Hub with its
--     answer. Outcome, Labels, Lineage, Stored, Seen, Runs, Events, Epochs, Records, ViewLaws,
--     ViewDeletion, ViewWriters, WellFormed, Steps, RoundTrip, RestoreFacts, Restored, Answers,
--     Sorting, FieldOrder, RowOrder, Newest and Shown hold the proofs on them.
--   Hub.Kiosk: crates/fleet-hub/src/kiosk.rs. Guards is the lookups, tests and the common end of a
--     transition; Preflight is kiosk_preflight and require_target_current; Preview, Confirm,
--     Dispatch, Attempt, Cancel and Queries are the operations. Changes, Effects, Calls and Steps say
--     what a successful call does; Protocol is a state machine of one target, and Refinement,
--     Paths and Runs relate the Hub to it; Soundness, Reached, Limits, Ready, Replay,
--     EndedLedger, EndedOperation and Ending hold the other proofs. An operation takes the Hub and returns an
--     error or the next Hub with the operation; a call that fails has no next Hub, since the source
--     writes to the Hub only at its end.
--   Tests: runs of the model, and the theorems at concrete inputs.
--
-- Parameters: V is the type of JSON values (serde_json), S that of stream descriptors with its
-- validation as an instance argument, Serialize the length of an observation's JSON encoding, and
-- to_lowercase Unicode's lower-case mapping.
--
-- Every loop of the modelled code is structural recursion on a list or on a query's expression. The
-- one use of fuel is `decimal`, which prints a number within as many rounds as the number itself,
-- more than it has digits. Numbers of type u64 are natural numbers, with the saturating and checked
-- additions of the source written out; i64 times are integers with the saturating subtraction.
--
-- Not modelled: the stores of FleetHub for packages, awake leases, Wi-Fi ADB, the Windows hotspot
-- and kiosk catalogues with their operations and their part of restore; inspect and detail; the
-- validation of rows, inspectors and details; the validation of streams; and the adapters,
-- onboarding, services, clients and tools, which are input and output around the Hub.

pub mod Prelude
pub mod Order
pub mod BTreeMap
pub mod Contracts
pub mod Hub
pub mod Tests
