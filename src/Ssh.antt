-- ===== src/Ssh.antt =====
-- crates/ssh-core: the SSH protocol layer above the russh library.
pub mod Stage
pub mod Foreign
pub mod Error
pub mod Endpoint
pub mod Fingerprint
pub mod Shell
pub mod Connect
