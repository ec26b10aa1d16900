-- ===== src/Bounds/Threads.antt =====
-- Two threads that call the functions of simplex/lib/simplex.c: registers of their own, which the operating
-- system saves and restores, stacks of their own, and one memory. A scheduler switches between any two
-- instructions.
pub mod Turns
pub mod Isolation
mod Examples
use simplex.Base.{ℕ, List, [], ◌∷◌, ◌≤◌, ◌<◌, sub64}
use simplex.Machine.{Machine, bndmov, bndmk, mov_load, andq, report}
use simplex.Machine.Bytes.{Memory}
use simplex.Bounds.Interrupts.Code.{Code, done, spill, make, read, mask, print}
use simplex.Bounds.Interrupts.Safety.{zone}

-- What is left to do, and the machine as the thread sees it, with its own messages.
pub record Thread : Type 0 where
  pub left : Code (List ℕ)
  pub machine : Machine

-- One instruction; a thread that has finished waits.
unfoldable pub advance : Code (List ℕ) → Machine → Thread
advance (done vs) m = record { left = done vs; machine = m }
advance (spill n d p) m = record { left = p; machine = (bndmov n d m).1 }
advance (make n base index p) m = record { left = p; machine = (bndmk n base index m).1 }
advance (read d k) m = record { left = k (mov_load d m).0; machine = (mov_load d m).1 }
advance (mask imm d p) m = record { left = p; machine = (andq imm d m).1 }
advance (print caller reg p) m = record { left = p; machine = (report caller reg m).1 }

abbrev pub step : Thread → Thread
step t = advance t.left t.machine

-- The memory that the other thread has left.
abbrev pub resume : Memory → Thread → Thread
resume mem t = record t { machine = record (t.machine) { mem = mem } }

pub data Turn : Type 0 where
  first second : Turn

unfoldable pub schedule : List Turn → Thread → Thread → Thread × Thread
unfolding advance
schedule [] a b = (a, b)
schedule (first ∷ turns) a b = let a' = step a in schedule turns a' (resume a'.machine.mem b)
schedule (second ∷ turns) a b = let b' = step b in schedule turns (resume b'.machine.mem a) b'

-- Stacks whose red zones do not meet.
abbrev pub Apart : ℕ → ℕ → Type 0
Apart top other = (x : ℕ) → sub64 x (sub64 top zone) < zone → zone ≤ sub64 x (sub64 other zone)
