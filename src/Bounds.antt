-- ===== src/Bounds.antt =====
-- The programmer interface, simplex/lib/simplex.c and the types of simplex/include/simplex.h.
pub mod Bndreg
pub mod Accessors
pub mod Mutators
pub mod Blocks
pub mod Reads
pub mod Writes
pub mod Api
pub mod Frame
pub mod Calls
pub mod Refinement
pub mod Errors
pub mod Residue
pub mod Disabled
pub mod Kept
pub mod Refused
pub mod Stale
pub mod Values
pub mod Differ
pub mod Secrecy
pub mod Traces
pub mod Interrupts
pub mod Threads
mod Examples
