-- ===== src/Bounds/Interrupts.antt =====
-- The functions of simplex/lib/simplex.c instruction by instruction, so that a signal handler can run between
-- any two of them. They keep what they spill in the 128 bytes below %rsp, which the x86-64 ABI calls the red
-- zone and which a handler leaves alone.
pub mod Code
pub mod Runs
pub mod Safety
pub mod Transparent
mod Examples
