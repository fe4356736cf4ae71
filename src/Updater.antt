-- ===== src/Updater.antt =====
-- core/updater: the transaction that installs one release, and its rollback.
pub mod Apply
pub mod Policy
pub mod Steps
pub mod Install
pub mod Reach
mod Tests
mod Runs
mod Recoveries
