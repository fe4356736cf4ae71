-- ===== src/Stage.antt =====
-- core/stage: the staging of a release, the swap of the pointer, and the collection of old versions.
pub mod Swap
pub mod Staging
pub mod Collect
pub mod Route
