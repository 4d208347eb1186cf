-- ===== src/Order.antt =====
-- Comparison functions (Rust's `Ord`): their laws, the ways the program combines them, and the
-- orders of numbers, signed numbers and texts. `BTreeMap` takes its keys' order from here.
mod Laws
mod Text
pub use Laws.*
pub use Text.*
