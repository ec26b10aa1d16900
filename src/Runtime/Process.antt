-- ===== src/Runtime/Process.antt =====
-- `enable_mpx`, `disable_mpx` and the two public functions of simplex/lib/mpxrt.c. The buffer of 4096 bytes
-- that they clear and align on the stack is a value of its own and no part of the memory: it is dead when they
-- return, and no caller can read it.
use simplex.Base.{ℕ, ◌*◌, ◌^◌, Bool, true, false, not, bit_or, if◌then◌else◌}
use simplex.Cpuid.{Cpu}
use simplex.Machine.{Machine}
use simplex.Runtime.Support.{check_mpx_support}
use simplex.Runtime.Xsave.{XsaveArea, zeroed, Outcome, ok, ◌>>◌, xrstor_state}

-- The static variables, which nothing assigns.
abbrev l1base : ℕ
l1base = 0

abbrev pub bndpreserve : ℕ
bndpreserve = 1

abbrev pub enable : ℕ
enable = 1

abbrev mpx_enable_bit_no : ℕ
mpx_enable_bit_no = 0

abbrev bndpreserve_bit_no : ℕ
bndpreserve_bit_no = 1

-- The area after the assignments to its members.
abbrev pub marked : ℕ → XsaveArea → XsaveArea
marked cfg fx = record fx {
  xsave_hdr = record (fx.xsave_hdr) { xstate_bv = 0x10 };
  bndcsr = record { cfg_reg_u = cfg; status_reg = 0 };
}

abbrev pub cfg_enabled : ℕ
cfg_enabled =
    bit_or (bit_or l1base (enable * 2 ^ mpx_enable_bit_no)) (bndpreserve * 2 ^ bndpreserve_bit_no)

unfoldable pub enable_mpx : Machine → Outcome (Unit {0})
unfolding xrstor_state
enable_mpx = do xrstor_state zeroed 0x18; xrstor_state (marked cfg_enabled zeroed) 0x10

unfoldable pub disable_mpx : Machine → Outcome (Unit {0})
unfolding xrstor_state
disable_mpx = do xrstor_state zeroed 0x18; xrstor_state (marked 0 zeroed) 0x10

unfoldable pub process_specific_init : Cpu → Machine → Outcome Bool
process_specific_init cpu m =
    if not (check_mpx_support cpu) then ok false m else (do enable_mpx; ok true) m

unfoldable pub process_specific_finish : Cpu → Machine → Outcome Bool
process_specific_finish cpu m =
    if not (check_mpx_support cpu) then ok false m else (do disable_mpx; ok true) m
