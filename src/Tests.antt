-- ===== src/Tests.antt =====
-- Runs on concrete inputs, and the theorems applied to them.
mod Mock
mod Memory
mod Iterator
mod Storage
mod Errors
mod Contract
mod Wasmer
mod Calls
mod Coins
mod Scan
mod Program
mod Whole
mod Buffers
mod Reentrant
mod Refused
mod Cmd
