-- ===== src/Machine/Bytes.antt =====
-- Byte memory, and the little-endian 64-bit loads and stores that `mov`, `andq` and `bndmov` make.
use simplex.Base.{ℕ, ◌+◌, ◌*◌, ◌/◌, ◌%◌, ◌^◌, ltb, if◌then◌else◌, add64, sub64}

abbrev pub Memory : Type 0
Memory = ℕ → ℕ

-- Byte `d` of a word.
unfoldable pub byte_of : ℕ → ℕ → ℕ
byte_of v d = v / 256 ^ d % 256

-- Addresses wrap at 2 ^ 64, so the distance from `a` decides which byte of `v` goes where.
unfoldable pub store64 : Memory → ℕ → ℕ → Memory
store64 mem a v x = let d = sub64 x a in if ltb d 8 then byte_of v d else mem x

unfoldable pub load64 : Memory → ℕ → ℕ
load64 mem a =
    mem (add64 a 0)
    + mem (add64 a 1) * 256 ^ 1
    + mem (add64 a 2) * 256 ^ 2
    + mem (add64 a 3) * 256 ^ 3
    + mem (add64 a 4) * 256 ^ 4
    + mem (add64 a 5) * 256 ^ 5
    + mem (add64 a 6) * 256 ^ 6
    + mem (add64 a 7) * 256 ^ 7
