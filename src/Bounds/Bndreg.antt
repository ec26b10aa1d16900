-- ===== src/Bounds/Bndreg.antt =====
-- `bndreg_t` of simplex/include/simplex.h: four named numbers, held in an unsigned int, and the
-- `switch` that every function of simplex/lib/simplex.c makes on one.
use simplex.Base.{ℕ, Option, none, some, if◌then◌else◌, ◌==◌}
use simplex.Machine.{BndName, bnd0, bnd1, bnd2, bnd3}

abbrev pub Bndreg : Type 0
Bndreg = ℕ

-- `case BND0: … case BND3: … default: …`.
abbrev pub switch {ℓ} : {A : Type ℓ} → Bndreg → A → A → A → A → A → A
switch reg case0 case1 case2 case3 default =
    if reg == 0
    then case0
    else if reg == 1
    then case1
    else if reg == 2
    then case2
    else if reg == 3
    then case3
    else default

-- The register that a number names.
abbrev pub decode : Bndreg → Option BndName
decode reg = switch reg (some bnd0) (some bnd1) (some bnd2) (some bnd3) none

-- The number of a register.
abbrev pub encode : BndName → Bndreg
encode bnd0 = 0
encode bnd1 = 1
encode bnd2 = 2
encode bnd3 = 3
