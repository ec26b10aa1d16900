-- ===== src/Bounds/Reads.antt =====
-- What each accessor of simplex/lib/simplex.c returns, and what it leaves behind.
use simplex.Base.{◌≡◌, not64}
use simplex.Machine.{BndName, bnd0, bnd1, bnd2, bnd3, Machine}
use simplex.Bounds.Bndreg.{encode}
use simplex.Bounds.Accessors.{getbndl, getbndu, getbnd, qgetbndl, join128}
use simplex.Bounds.Blocks.{
  IsMachine, lower_half, upper_half, scrubbed, spilled, lower_case, upper_case, both_case,
  spill_lower_lem,
}

-- Over the four registers each accessor is its block.
module _ {m : Machine} (ok : IsMachine m) where
  pub getbndl-encode : (n : BndName) → getbndl (encode n) m ≡ (lower_half n m, scrubbed m)
  unfolding getbndl
  getbndl-encode bnd0 = lower_case bnd0 ok
  getbndl-encode bnd1 = lower_case bnd1 ok
  getbndl-encode bnd2 = lower_case bnd2 ok
  getbndl-encode bnd3 = lower_case bnd3 ok

  pub getbndu-encode : (n : BndName) → getbndu (encode n) m ≡ (not64 (upper_half n m), scrubbed m)
  unfolding getbndu
  getbndu-encode bnd0 = upper_case bnd0 ok
  getbndu-encode bnd1 = upper_case bnd1 ok
  getbndu-encode bnd2 = upper_case bnd2 ok
  getbndu-encode bnd3 = upper_case bnd3 ok

  pub getbnd-encode :
      (n : BndName) → getbnd (encode n) m ≡ (join128 (upper_half n m) (lower_half n m), scrubbed m)
  unfolding getbnd
  getbnd-encode bnd0 = both_case bnd0 ok
  getbnd-encode bnd1 = both_case bnd1 ok
  getbnd-encode bnd2 = both_case bnd2 ok
  getbnd-encode bnd3 = both_case bnd3 ok

  pub qgetbndl-encode : (n : BndName) → qgetbndl (encode n) m ≡ (lower_half n m, spilled n m)
  unfolding qgetbndl
  qgetbndl-encode bnd0 = spill_lower_lem bnd0 ok
  qgetbndl-encode bnd1 = spill_lower_lem bnd1 ok
  qgetbndl-encode bnd2 = spill_lower_lem bnd2 ok
  qgetbndl-encode bnd3 = spill_lower_lem bnd3 ok
