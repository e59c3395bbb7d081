-- ===== src/Desktop.antt =====
-- apps/desktop/src-tauri: the commands behind the windows of the application.
pub mod CommandError
pub mod Session
pub mod Terminal
pub mod Import
pub mod Lifecycle
