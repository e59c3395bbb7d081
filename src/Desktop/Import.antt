-- ===== src/Desktop/Import.antt =====
-- apps/desktop/src-tauri/src/openssh_import.rs: the import of connections from an OpenSSH
-- configuration. The file system, the environment, SHA-256 and the catalog's storage are libraries and
-- other parts: what they return is an argument.
pub mod Lexer
pub mod Parser
pub mod Preview
pub mod Plan
