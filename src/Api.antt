-- ===== src/Api.antt =====
-- The package `api`.
pub mod World
pub mod Host
pub mod Memory
pub mod Iterator
pub mod Callbacks
pub mod Gateways
pub mod Library
pub mod Contract
pub mod Calls
pub mod Stubs
