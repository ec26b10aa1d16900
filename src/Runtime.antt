-- ===== src/Runtime.antt =====
-- The runtime, simplex/lib/mpxrt.c with the structures of simplex/include/mpxrt.h.
pub mod Support
pub mod Xsave
pub mod Process
pub mod Outcomes
pub mod Checks
pub mod Lifecycle
pub mod Session
pub mod Branches
pub mod Directory
pub mod Pages
pub mod Masks
pub mod Saves
pub mod Examples
