-- ===== src/Desktop/Terminal.antt =====
-- apps/desktop/src-tauri/src/terminal.rs: the output of a terminal session, and the task that runs it.
pub mod Flow
pub mod Run
