-- ===== src/Contracts.antt =====
-- crates/contracts: the types that the frontend and the backend share, with their validation.
pub mod Connection
pub mod Group
pub mod Settings
pub mod Colors
pub mod OpenSsh
