-- ===== src/KernelModule/Structs.antt =====
-- The XSAVE structures, the static variables and the three instructions of simplex/eval/kmod/simplexkm.c.
-- The module has its own copies of what simplex/lib/mpxrt.c and simplex/include/mpxrt.h have. To the
-- processor an area is its bytes: a struct stands for the area of XRSTOR and XSAVE if its members lie where
-- the processor looks for them, the header at 512, component 3 at 960 and component 4 at 1024. `offset_of`
-- finds them there, so the instructions work on the same type of areas as the library's.
use simplex.Base.{
  ℕ, ◌+◌, ◌*◌, ◌/◌, ◌^◌, bit_or, ◌==◌, not, u32, if◌then◌else◌, Bool, true, false, List, [], ◌∷◌,
}
use simplex.Machine.{Machine}
use simplex.Runtime.Xsave.{
  Member, fpu_sse_member, xsave_hdr_member, ymm_member, lwp_member, bndregs_member, bndcsr_member,
  XsaveArea, Outcome, ok, fault, invalid_opcode, general_protection, xrstor,
}
use simplex.Runtime.Saves.{xsave}

unfoldable pub size_of : Member → ℕ
size_of fpu_sse_member = 512
size_of xsave_hdr_member = 8 + 8 * 2 + 8 * 5
size_of ymm_member = 256
size_of lwp_member = 128
size_of bndregs_member = 8 * 8
size_of bndcsr_member = 8 + 8

-- The members of `struct xsave_struct` in the order of their declarations, packed.
abbrev members : List Member
members =
    fpu_sse_member ∷ xsave_hdr_member ∷ ymm_member ∷ lwp_member ∷ bndregs_member ∷ bndcsr_member
    ∷ []

abbrev is_member : Member → Member → Bool
is_member fpu_sse_member fpu_sse_member = true
is_member xsave_hdr_member xsave_hdr_member = true
is_member ymm_member ymm_member = true
is_member lwp_member lwp_member = true
is_member bndregs_member bndregs_member = true
is_member bndcsr_member bndcsr_member = true
is_member _ _ = false

-- The bytes in front of a member of a packed struct.
offset_among : List Member → Member → ℕ
offset_among [] p = 0
offset_among (q ∷ qs) p =
    let behind = offset_among qs p in if is_member q p then 0 else size_of q + behind

unfoldable pub offset_of : Member → ℕ
unfolding offset_among size_of
offset_of = offset_among members

-- The static variables, which nothing assigns.
abbrev l1base : ℕ
l1base = 0

abbrev pub bndpreserve : ℕ
bndpreserve = 1

abbrev pub enable : ℕ
enable = 1

abbrev mpx_enable_bit_no : ℕ
mpx_enable_bit_no = 0

abbrev bndpreserve_bit_no : ℕ
bndpreserve_bit_no = 1

-- The area after the assignments to its members.
abbrev pub marked : ℕ → XsaveArea → XsaveArea
marked cfg fx = record fx {
  xsave_hdr = record (fx.xsave_hdr) { xstate_bv = 0x10 };
  bndcsr = record { cfg_reg_u = cfg; status_reg = 0 };
}

abbrev pub cfg_enabled : ℕ
cfg_enabled =
    bit_or (bit_or l1base (enable * 2 ^ mpx_enable_bit_no)) (bndpreserve * 2 ^ bndpreserve_bit_no)

unfoldable pub xrstor_state : XsaveArea → ℕ → Machine → Outcome (Unit {0})
unfolding xrstor
xrstor_state fx mask = xrstor fx (u32 mask) (u32 (mask / 2 ^ 32))

unfoldable pub xsave_state : (Machine → ℕ) → XsaveArea → ℕ → Machine → Outcome XsaveArea
unfolding xsave
xsave_state in_use fx mask = xsave in_use fx (u32 mask) (u32 (mask / 2 ^ 32))

unfoldable pub xgetbv : ℕ → Machine → Outcome ℕ
xgetbv index m =
    if not m.osxsave
    then fault invalid_opcode
    else if not (index == 0)
    then fault general_protection
    else let eax = u32 m.xcr0 in let edx = u32 (m.xcr0 / 2 ^ 32) in ok (eax + edx * 2 ^ 32) m
