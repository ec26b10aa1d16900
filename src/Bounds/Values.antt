-- ===== src/Bounds/Values.antt =====
-- What the code reads from a register or, with MPX off, from the stack is a 64-bit word.
use simplex.Base.{ℕ, ◌<◌, arith, add64, IsWord}
use simplex.Machine.{BndName, Machine, slot}
use simplex.Machine.Bytes.{Memory, load64}
use simplex.Bounds.Blocks.{IsMachine, lower_half}

pub load64-IsWord : (mem : Memory) (a : ℕ) → ((x : ℕ) → mem x < 256) → IsWord (load64 mem a)
unfolding load64
load64-IsWord mem a h = omega (
  arith,
  h (add64 a 0),
  h (add64 a 1),
  h (add64 a 2),
  h (add64 a 3),
  h (add64 a 4),
  h (add64 a 5),
  h (add64 a 6),
  h (add64 a 7),
)

module _ {m : Machine} (ok : IsMachine m) (n : BndName) where
  pub lower_half-IsWord : IsWord (lower_half n m)
  unfolding lower_half
  lower_half-IsWord = ground (arith, ok.lb_fits n, load64-IsWord m.mem (slot 0x80 m) ok.bytes)
