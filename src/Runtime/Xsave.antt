-- ===== src/Runtime/Xsave.antt =====
-- The XSAVE area of simplex/include/mpxrt.h, and `xrstor_state` and `xgetbv` of simplex/lib/mpxrt.c. Of the
-- state components that XRSTOR and XSAVE move only the two of MPX are modelled: component 3, the bounds
-- registers, and component 4, BNDCFGU and BNDSTATUS.
use simplex.Base.{ℕ, ◌+◌, ◌*◌, ◌/◌, ◌%◌, ◌^◌, Bool, ◌&&◌, not, bit_and, ◌==◌, u32, if◌then◌else◌}
use simplex.Machine.{bnd0, bnd1, bnd2, bnd3, BndFile, Machine}

-- An array member; its length stands in `size_of`.
abbrev pub Words : Type 0
Words = ℕ → ℕ

pub record XsaveHdr : Type 0 where
  pub xstate_bv : ℕ
  pub reserved1 : Words
  pub reserved2 : Words

pub record BndregsArea : Type 0 where
  pub bndregs : Words

pub record Bndcsr : Type 0 where
  pub cfg_reg_u : ℕ
  pub status_reg : ℕ

pub record XsaveArea : Type 0 where
  pub fpu_sse : Words
  pub xsave_hdr : XsaveHdr
  pub ymm : Words
  pub lwp : Words
  pub bndregs : BndregsArea
  pub bndcsr : Bndcsr

-- `memset(buffer, 0, sizeof(buffer))`.
abbrev pub zeroed : XsaveArea
zeroed = record {
  fpu_sse = λ _. 0;
  xsave_hdr = record { xstate_bv = 0; reserved1 = λ _. 0; reserved2 = λ _. 0 };
  ymm = λ _. 0;
  lwp = λ _. 0;
  bndregs = record { bndregs = λ _. 0 };
  bndcsr = record { cfg_reg_u = 0; status_reg = 0 };
}

-- The members of `struct xsave_struct`, packed, with their sizes in bytes.
pub data Member : Type 0 where
  fpu_sse_member xsave_hdr_member ymm_member lwp_member bndregs_member bndcsr_member : Member

unfoldable pub size_of : Member → ℕ
size_of fpu_sse_member = 512
size_of xsave_hdr_member = 8 + 8 * 2 + 8 * 5
size_of ymm_member = 256
size_of lwp_member = 128
size_of bndregs_member = 8 * 8
size_of bndcsr_member = 8 + 8

-- Each member stands behind those before it.
unfoldable pub offset_of : Member → ℕ
unfolding size_of
offset_of fpu_sse_member = 0
offset_of xsave_hdr_member = size_of fpu_sse_member
offset_of ymm_member = size_of fpu_sse_member + size_of xsave_hdr_member
offset_of lwp_member = size_of fpu_sse_member + size_of xsave_hdr_member + size_of ymm_member
offset_of bndregs_member =
    size_of fpu_sse_member + size_of xsave_hdr_member + size_of ymm_member + size_of lwp_member
offset_of bndcsr_member =
    size_of fpu_sse_member
    + size_of xsave_hdr_member
    + size_of ymm_member
    + size_of lwp_member
    + size_of bndregs_member

-- What an instruction or a function ends in.
pub data Fault : Type 0 where
  invalid_opcode general_protection divide_error : Fault

pub data Outcome (A : Type 0) : Type 0 where
  ok : A → Machine → Outcome A
  fault : Fault → Outcome A

abbrev pub and_then : {A B : Type 0} → Outcome A → (A → Machine → Outcome B) → Outcome B
and_then (ok a m) k = k a m
and_then (fault e) k = fault e

infixl 5 ◌>>=◌ ◌>>◌
abbrev pub ◌>>=◌ :
    {A B : Type 0} → (Machine → Outcome A) → (A → Machine → Outcome B) → Machine → Outcome B
◌>>=◌ f k m = and_then (f m) k

abbrev pub ◌>>◌ :
    {B : Type 0} → (Machine → Outcome (Unit {0})) → (Machine → Outcome B) → Machine → Outcome B
◌>>◌ f g m = and_then (f m) (λ _. g)

-- Bit `k` of a register.
abbrev pub bit : ℕ → ℕ → Bool
bit k x = x / 2 ^ k % 2 == 1

-- Bounds registers as component 3 lays them out, two words each.
abbrev pub file_of : Words → BndFile
file_of w bnd0 = record { lb = w 0; ub = w 1 }
file_of w bnd1 = record { lb = w 2; ub = w 3 }
file_of w bnd2 = record { lb = w 4; ub = w 5 }
file_of w bnd3 = record { lb = w 6; ub = w 7 }

-- The initial configuration of component 3: bounds that allow every address.
abbrev pub init_bnds : BndFile
init_bnds = λ _. record { lb = 0; ub = 0 }

-- XRSTOR faults where the operating system has not enabled XSAVE, and where the header names a
-- component that XCR0 lacks or has a reserved word set.
abbrev pub header_ok : XsaveHdr → ℕ → Bool
header_ok h xcr0 =
    bit_and xcr0 h.xstate_bv == h.xstate_bv && h.reserved1 0 == 0 && h.reserved1 1 == 0

-- A requested component is loaded if the header marks it, and initialised if not.
abbrev pub restored : {A : Type 0} → Bool → Bool → A → A → A → A
restored requested marked from_area initial old =
    if requested then if marked then from_area else initial else old

unfoldable pub xrstor : XsaveArea → ℕ → ℕ → Machine → Outcome (Unit {0})
xrstor fx eax edx m =
    let mask = eax + edx * 2 ^ 32 in
    let bv = fx.xsave_hdr.xstate_bv in
    let req3 = bit 3 mask && bit 3 m.xcr0 in
    let req4 = bit 4 mask && bit 4 m.xcr0 in
    if not m.osxsave
    then fault invalid_opcode
    else if not (header_ok fx.xsave_hdr m.xcr0)
    then fault general_protection
    else ok tt (record m {
      bnds = restored req3 (bit 3 bv) (file_of fx.bndregs.bndregs) init_bnds m.bnds;
      bndcfgu = restored req4 (bit 4 bv) fx.bndcsr.cfg_reg_u 0 m.bndcfgu;
      bndstatus = restored req4 (bit 4 bv) fx.bndcsr.status_reg 0 m.bndstatus;
    })

-- `lmask` and `hmask` go to EAX and EDX.
unfoldable pub xrstor_state : XsaveArea → ℕ → Machine → Outcome (Unit {0})
unfolding xrstor
xrstor_state fx mask = xrstor fx (u32 mask) (u32 (mask / 2 ^ 32))

-- XGETBV splits the register that it reads over EAX and EDX; register 0 is XCR0.
unfoldable pub xgetbv : ℕ → Machine → Outcome ℕ
xgetbv index m =
    if not m.osxsave
    then fault invalid_opcode
    else if not (index == 0)
    then fault general_protection
    else let eax = u32 m.xcr0 in let edx = u32 (m.xcr0 / 2 ^ 32) in ok (eax + edx * 2 ^ 32) m
