-- ===== src/Tests.antt =====
-- Runs of the model on concrete inputs, which show that the theorems' conditions can hold.
mod Fixtures
mod Contracts
mod Ssh
mod Sessions
mod Terminal
mod Import
mod Lifecycle
mod Persistence
mod Database
mod Keys
