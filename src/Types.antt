-- ===== src/Types.antt =====
-- The package `types`.
pub mod StdError
pub mod SystemError
pub mod Errors
pub mod Queries
pub mod Coins
pub mod Responses
pub mod Msg
