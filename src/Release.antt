-- ===== src/Release.antt =====
-- core/release: version order, walks through releases, target paths, descriptors and policies.
pub mod Version
pub mod Sorting
pub mod Chain
pub mod Descriptor
pub mod Documents
pub mod Paths
mod Tests
