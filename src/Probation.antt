-- ===== src/Probation.antt =====
-- How a committed version shows that it works: internal/layout/probation.go and
-- probation_outcome.go, core/launch/probation.go and core/updater/probation.go.
pub mod Reason
pub mod Record
pub mod Files
pub mod Outcomes
pub mod Reports
pub mod Changes
pub mod Launcher
pub mod Start
pub mod Allowance
pub mod Arming
mod Tests
