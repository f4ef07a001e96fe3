-- ===== src/Tests.antt =====
-- The theorems at concrete inputs.
pub mod Fixtures
pub mod Saving
pub mod Buses
pub mod Dispatching
pub mod Service
pub mod LocalDb
pub mod Rows
pub mod Sessions
pub mod Harness
pub mod Http
pub mod Values
mod Program
mod Machines
mod Delivered
mod Keyed
mod Progressing
