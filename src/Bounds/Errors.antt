-- ===== src/Bounds/Errors.antt =====
-- The `default:` branches of simplex/lib/simplex.c: calls with a number that names no register.
use simplex.Base.{◌≤◌, ◌≡◌, arith, String, List, [], ◌∷◌, ◌++◌, ltb, if◌then◌else◌}
use simplex.Machine.{BndName, bnd0, bnd1, bnd2, bnd3, Machine, Message, report}
use simplex.Bounds.Bndreg.{Bndreg, encode}
use simplex.Bounds.Accessors.{getbndl, getbndu, getbnd, qgetbndl}
use simplex.Bounds.Mutators.{setbndl, setbndu, setbnd, qsetbndl}
use simplex.Bounds.Api.{
  Call, get_lower, get_upper, get_both, quick_get, set_lower, set_upper, set_both, quick_set, exec,
}

-- The register number of a call.
abbrev pub reg_of : Call → Bndreg
reg_of (get_lower reg) = reg
reg_of (get_upper reg) = reg
reg_of (get_both reg) = reg
reg_of (quick_get reg) = reg
reg_of (set_lower reg val) = reg
reg_of (set_upper reg val) = reg
reg_of (set_both reg val) = reg
reg_of (quick_set reg val) = reg

-- The names that a refused call prints, the latest first. `setbndl` and `setbndu` read the other half
-- before they look at the number, so both functions complain.
abbrev pub complaints : Call → List String
complaints (get_lower reg) = "getbndl" ∷ []
complaints (get_upper reg) = "getbndu" ∷ []
complaints (get_both reg) = "getbndu" ∷ []
complaints (quick_get reg) = "getbndl" ∷ []
complaints (set_lower reg val) = "setbndl" ∷ "getbndu" ∷ []
complaints (set_upper reg val) = "setbndu" ∷ "getbndl" ∷ []
complaints (set_both reg val) = "setbndu" ∷ []
complaints (quick_set reg val) = "qsetbndl" ∷ []

abbrev pub messages : Bndreg → List String → List Message
messages reg [] = []
messages reg (caller ∷ rest) = record { caller = caller; reg = reg } ∷ messages reg rest

-- The lines that a call adds to stderr: none, unless its number is above 3.
abbrev pub lines_of : Call → List Message
lines_of c = if ltb (reg_of c) 4 then [] else messages (reg_of c) (complaints c)

-- A number that names a register is below 4.
pub lines_of-encode : (c : Call) (n : BndName) → reg_of c ≡ encode n → lines_of c ≡ []
lines_of-encode c bnd0 e = rw e
lines_of-encode c bnd1 e = rw e
lines_of-encode c bnd2 e = rw e
lines_of-encode c bnd3 e = rw e

pub lines_of-invalid : (c : Call) → 4 ≤ reg_of c → lines_of c ≡ messages (reg_of c) (complaints c)
lines_of-invalid c h = ground arith

-- A call with a number above 3 returns 0 and changes nothing but stderr, whether MPX is on or off.
pub exec_of_invalid :
    (c : Call) (m : Machine)
    → 4 ≤ reg_of c
    → exec c m ≡ (0, record m { stderr = messages (reg_of c) (complaints c) ++ m.stderr })
unfolding exec getbndl getbndu getbnd qgetbndl setbndl setbndu setbnd qsetbndl report
exec_of_invalid (get_lower reg) m h = ground arith
exec_of_invalid (get_upper reg) m h = ground arith
exec_of_invalid (get_both reg) m h = ground arith
exec_of_invalid (quick_get reg) m h = ground arith
exec_of_invalid (set_lower reg val) m h = ground arith
exec_of_invalid (set_upper reg val) m h = ground arith
exec_of_invalid (set_both reg val) m h = ground arith
exec_of_invalid (quick_set reg val) m h = ground arith
