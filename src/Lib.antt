-- ===== src/Lib.antt =====
-- A model of BX-SSH, a desktop SSH client: the rules for connections and sessions that its Rust crates
-- and its Tauri application share.
--
-- The parts and the files that model them:
--
-- * Contracts (crates/contracts/src/connection.rs): `ConnectionConfig`, `ConnectionGroup` and their
--   `validate`, `AuthMethod` as it is stored, the layers of settings and their `resolve`, and the types
--   of the OpenSSH import. Contracts/Connection, Group, Settings, OpenSsh, Colors.
-- * Ssh (crates/ssh-core/src): the stages of a connection (Ssh/Stage: connection_state.rs), the
--   endpoint (endpoint.rs), the fingerprint of a host key (fingerprint.rs), `SshError` with its stages
--   (error.rs), the shell's messages (shell.rs), and `connect` with the logins by password and by
--   private key (Ssh/Connect: session.rs). Ssh/Foreign holds the types of russh as parameters.
-- * Desktop (apps/desktop/src-tauri/src): command errors (command_error.rs), the session manager
--   (Desktop/Session: session_manager.rs), the output of a terminal and the task that runs it
--   (Desktop/Terminal: terminal.rs), the OpenSSH import (Desktop/Import: openssh_import.rs), and the
--   counters of activities (Desktop/Lifecycle: lifecycle.rs).
-- * Persistence (crates/persistence): the columns and tables of the schema (Schema: migrations/
--   0001_initial.sql, schema.rs), INTEGER columns and their conversions (Integers), the statements of SQL
--   on lists of rows (Table), the errors (Error: error.rs), the calls of the engine with transactions
--   (Driver), the repository (repository.rs: Hosts, Groups, Ordering, Settings, Connections, PrivateKeys),
--   private keys encrypted with keys of their own (KeyRecord: private_key.rs), the envelope that protects
--   the key of the database with a password (Envelope: envelope.rs, key.rs),
--   all its calls that change the database as commands with the states they reach (Commands), and
--   database.rs (Migrations, Opening). Desktop/CommandError/Stored turns its errors into command errors.
--
-- How they interact: a window begins an attempt in the session manager, which holds a state machine of
-- Ssh/Stage for each; the login of Ssh/Connect reports stages, for which the window's task calls
-- `transition_attempt`, and errors, which become command errors; `complete_attempt` turns the attempt
-- into a session, which `run_session` serves and removes in the end. The import reads a configuration
-- into items and makes configurations, which the validation of Contracts judges and which the repository
-- stores in one transaction. `save_connection` stores a configuration with its settings, which are read
-- back as the layers that Contracts resolves; the key that the user accepts for an endpoint is stored by
-- `trust_host_fingerprint`, and `check_server_key` compares the server's key with it.
--
-- How the code is rendered: text is the list of its Unicode scalar values, with Rust's trimming, ASCII
-- case and UTF-8 bytes (Common/Text); a `HashMap` is an association list (Common/Maps); a `Mutex` around
-- a state is a function from a state to a state; counters of w bits wrap. A cancellation is a handle into
-- a table of flags, since the manager and the connecting task share it. What the network and russh do is
-- a record of outcomes (`World`), on which the login runs and logs its effects. The promise about russh
-- is `IsCheckedHandshake`: a handshake succeeds only with a key that `check_server_key` accepts. A turn
-- of the terminal's loop is one branch of its `select!`. A login by a key that a cancellation or the
-- deadline ends may have sent its signature before (`key_started`). The loop that draws a session id runs
-- on fuel: one round more than there are sessions is enough if these draws differ
-- (`next_session_id_total`). A window closes a session in one step, from the authorization to the
-- removal, although the command waits for the channel between. Printing a number in decimal
-- (Common/Text/Decimal) runs on fuel as well, one round more than the number, and a number has no more
-- digits than that.
--
-- The database is a record of tables, and a table is the list of its rows in the order of insertion. The
-- engine is a parameter, `Engine`: it may refuse any call in any state, with an error of its own, and the
-- constraints of the schema (UNIQUE, CHECK, FOREIGN KEY) are among its reasons. A refused statement changes
-- nothing, and neither does a transaction that is dropped before its commit; a theorem that says a call
-- succeeds assumes `Healthy`, an engine that refuses nothing. The clock, the row ids that the database
-- draws and serde_json's reading of a number (`parse_json`) are arguments. Columns are integers with a
-- sign, since the code rejects the ones that do not fit. What a batch of a migration does to the contents
-- is the parameter `run`; AES-256-GCM is the record `Aes256Gcm`, with its promise `IsAead`, and
-- Argon2id a function; the credential store, the random source and SQLCipher are the record `Platform`.
--
-- Not modelled: the credential store, the files of imported private keys, `EncryptedDatabase::open` (calls
-- of SQLCipher), SFTP, the algorithm policy, the commands that start a terminal session, the exit
-- sequence, updates, and the user interface.
pub mod Common
pub mod Contracts
pub mod Ssh
pub mod Desktop
pub mod Persistence
mod Tests
