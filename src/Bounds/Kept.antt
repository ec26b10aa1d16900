-- ===== src/Bounds/Kept.antt =====
-- Every call leaves the machine around the bounds registers as it was, with MPX on and off.
use simplex.Base.{inl, inr, Bool-cases}
use simplex.Machine.{Machine, mpx_on}
use simplex.Bounds.Blocks.{IsMachine}
use simplex.Bounds.Frame.{Keeps}
use simplex.Bounds.Api.{Call, exec, IsTyped}
use simplex.Bounds.Calls.{exec-Refines}
use simplex.Bounds.Disabled.{exec-IsInert}

-- On a machine of 64-bit registers and bytes, with MPX on or off, a well-typed call writes no
-- memory outside its 16-byte stack slot, changes neither the configuration and status of MPX, nor
-- what the operating system has enabled, nor the stack pointer, and leaves a machine of the same
-- kind.
pub exec-Keeps : (c : Call) {m : Machine} → IsMachine m → IsTyped c → Keeps m (exec c m).1
exec-Keeps c {m} ok t = elim (Bool-cases (mpx_on m)) [
  | inl on ↦ (exec-Refines c (record { machine = ok; on = on }) t).keeps
  | inr off ↦ (exec-IsInert c ok off).keeps
]
