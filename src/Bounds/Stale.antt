-- ===== src/Bounds/Stale.antt =====
-- Programs while MPX is off: the calls work on the two words at -0x80(%rsp) in the place of the registers.
use simplex.Base.{ℕ, ◌+◌, ◌*◌, ◌^◌, ◌≡◌, false, List, [], ◌∷◌, ltb, if◌then◌else◌, not64}
use simplex.Machine.{BndName, Machine, mpx_on, slot}
use simplex.Machine.Bytes.{load64}
use simplex.Bounds.Bndreg.{Bndreg}
use simplex.Bounds.Blocks.{IsMachine}
use simplex.Bounds.Frame.{Keeps}
use simplex.Bounds.Api.{
  Call, get_lower, get_upper, get_both, quick_get, set_lower, set_upper, set_both, quick_set, exec,
  exec_all,
}

-- The words at -0x80(%rsp) and -0x78(%rsp).
pub record Pair : Type 0 where
  pub low : ℕ
  pub high : ℕ

abbrev pub pair_of : Machine → Pair
pair_of m = record { low = load64 m.mem (slot 0x80 m); high = load64 m.mem (slot 0x78 m) }

abbrev pub cleared : Pair
cleared = record { low = 0; high = 0 }

-- A call on a number that names no register does nothing and returns 0.
abbrev pub if_register : Bndreg → ℕ × Pair → Pair → ℕ × Pair
if_register reg r w = if ltb reg 4 then r else (0, w)

-- What the calls make of the two words: no argument gets anywhere.
abbrev pub stale : Call → Pair → ℕ × Pair
stale (get_lower reg) w = if_register reg (w.low, cleared) w
stale (get_upper reg) w = if_register reg (not64 w.high, cleared) w
stale (get_both reg) w = if_register reg (w.low + not64 w.high * 2 ^ 64, cleared) w
stale (quick_get reg) w = if_register reg (w.low, w) w
stale (set_lower reg val) w = if_register reg (0, cleared) w
stale (set_upper reg val) w = if_register reg (0, cleared) w
stale (set_both reg val) w = (0, w)
stale (quick_set reg val) w = (0, w)

abbrev pub stale_all : List Call → Pair → List ℕ × Pair
stale_all [] w = ([], w)
stale_all (c ∷ cs) w = let (v, w') = stale c w in let (vs, w'') = stale_all cs w' in (v ∷ vs, w'')

-- One call on register `n`: what it returns, and the two words behind it.
module _ {m : Machine} (ok : IsMachine m) (off : mpx_on m ≡ false) (n : BndName) where
  abbrev Stale : Call → Type 0
  Stale c = ((exec c m).0, pair_of (exec c m).1) ≡ stale c (pair_of m)

-- A program with MPX off: what it returns, the two words behind it, and the rest.
pub record RefinesOff (cs : List Call) (m : Machine) : Type 0 where
  pub results : (exec_all cs m).0 ≡ (stale_all cs (pair_of m)).0
  pub words : pair_of (exec_all cs m).1 ≡ (stale_all cs (pair_of m)).1
  pub bnds : (exec_all cs m).1.bnds ≡ m.bnds
  pub keeps : Keeps m (exec_all cs m).1
