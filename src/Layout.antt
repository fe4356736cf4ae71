-- ===== src/Layout.antt =====
-- internal/layout and core/fsx: the install root as a state, its primitive effects, each of which
-- may fail, and the operations on the pointer, the install state and the pending launcher.
pub mod Disk
pub mod Effects
pub mod Pointer
