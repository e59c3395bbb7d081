-- ===== src/Persistence.antt =====
-- crates/persistence: the encrypted database of connections, its tables and its statements.
pub mod Error
pub mod Integers
pub mod Table
pub mod Schema
pub mod Driver
pub mod Hosts
pub mod Groups
pub mod Ordering
pub mod Settings
pub mod Connections
pub mod Commands
pub mod Migrations
pub mod Opening
pub mod PrivateKeys
pub mod KeyRecord
pub mod Envelope
