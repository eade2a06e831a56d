-- ===== src/Ffi.antt =====
-- The Rust side of the binding, as far as the Go code relies on it.
pub mod Memory
pub mod Status
pub mod Error
pub mod Storage
pub mod Scan
pub mod Range
pub mod Agreement
pub mod Lockstep
pub mod Program
pub mod Address
pub mod Query
pub mod Call
pub mod Machine
pub mod Entry
