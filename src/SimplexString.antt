-- ===== src/SimplexString.antt =====
-- simplex/eval/benchmark/simplex_string.cpp: five functions over memory, in a version that takes pointers
-- and in one that finds its pointers in the lower halves of BND1 and BND2.
pub mod Libgcc
pub mod Copies
pub mod Scans
pub mod Pointers
pub mod Searches
pub mod Footprint
pub mod Hidden
mod Examples
