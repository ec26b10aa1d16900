-- ===== src/Bounds/Mutators.antt =====
-- The mutators of simplex/lib/simplex.c.
use simplex.Base.{ℕ, ◌/◌, ◌^◌, bit_and, bit_xor, u64, sub64}
use simplex.Machine.{bnd0, bnd1, bnd2, bnd3, M, ◌>>=◌, bndmk, report}
use simplex.Bounds.Bndreg.{Bndreg, switch}
use simplex.Bounds.Accessors.{getbndl, getbndu}

-- `LOWER`.
abbrev pub lower_mask : ℕ
lower_mask = 0xFFFF_FFFF_FFFF_FFFF

unfoldable pub setbndl : Bndreg → ℕ → M (Unit {0})
setbndl reg val = do
  upper ← getbndu reg
  let upper' = sub64 upper val
  switch reg (bndmk bnd0 val upper') (bndmk bnd1 val upper') (bndmk bnd2 val upper')
      (bndmk bnd3 val upper') (report "setbndl" reg)

unfoldable pub setbndu : Bndreg → ℕ → M (Unit {0})
setbndu reg val = do
  lower ← getbndl reg
  let val' = sub64 val lower
  switch reg (bndmk bnd0 lower val') (bndmk bnd1 lower val') (bndmk bnd2 lower val')
      (bndmk bnd3 lower val') (report "setbndu" reg)

unfoldable pub setbnd : Bndreg → ℕ → M (Unit {0})
setbnd reg val =
    let lower = u64 (bit_and val lower_mask) in
    let upper = u64 (bit_xor val lower_mask / 2 ^ 64) in
    let upper' = sub64 upper lower in
    switch reg (bndmk bnd0 lower upper') (bndmk bnd1 lower upper') (bndmk bnd2 lower upper')
      (bndmk bnd3 lower upper') (report "setbndu" reg)

unfoldable pub qsetbndl : Bndreg → ℕ → M (Unit {0})
qsetbndl reg val =
    switch reg (bndmk bnd0 val 0) (bndmk bnd1 val 0) (bndmk bnd2 val 0) (bndmk bnd3 val 0)
      (report "qsetbndl" reg)
