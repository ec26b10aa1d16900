-- ===== src/Runtime/Outcomes.antt =====
-- What the functions of simplex/lib/mpxrt.c do on every processor and in every state.
use simplex.Base.{
  Bool-cases, inl, inr, ap, sym, ◌∙◌, ℕ, ◌≡◌, refl, arith, Bool, true, false, not, if◌then◌else◌,
  bit_and-zero, bit_and-bit,
}
use simplex.Cpuid.{Cpu}
use simplex.Machine.{Machine}
use simplex.Runtime.Support.{check_mpx_support}
use simplex.Runtime.Xsave.{
  zeroed, invalid_opcode, general_protection, Outcome, ok, fault, bit, init_bnds, xrstor_state,
  and_then, ◌>>◌,
}
use simplex.Runtime.Process.{
  marked, enable_mpx, disable_mpx, process_specific_init, process_specific_finish,
}

-- The machine with BNDCFGU set, and with the bounds registers initialised where XCR0 has them.
abbrev pub configured : ℕ → Machine → Machine
configured cfg m = record m {
  bnds = if bit 3 m.xcr0 then init_bnds else m.bnds;
  bndcfgu = cfg;
  bndstatus = 0;
}

-- How a change of the configuration ends.
abbrev pub configuring : {A : Type 0} → A → ℕ → Machine → Outcome A
configuring a cfg m =
    if not m.osxsave
    then fault invalid_opcode
    else if not (bit 4 m.xcr0)
    then fault general_protection
    else ok a (configured cfg m)

-- The first XRSTOR, of a zeroed area, initialises both components.
module _ (m : Machine) (os : m.osxsave ≡ true) where
  abbrev initialised : Machine
  initialised = record m {
    bnds = if bit 3 m.xcr0 then init_bnds else m.bnds;
    bndcfgu = if bit 4 m.xcr0 then 0 else m.bndcfgu;
    bndstatus = if bit 4 m.xcr0 then 0 else m.bndstatus;
  }

  xrstor_state-zeroed : xrstor_state zeroed 0x18 m ≡ ok tt initialised
  unfolding xrstor_state
  xrstor_state-zeroed = rw (os, bit_and-zero)

  xrstor_state-marked :
      (cfg : ℕ)
      → bit 4 m.xcr0 ≡ true
      → xrstor_state (marked cfg zeroed) 0x10 m ≡ ok tt (record m { bndcfgu = cfg; bndstatus = 0 })
  unfolding xrstor_state
  xrstor_state-marked cfg has = ground (arith, bit_and-bit 4 m.xcr0)

  xrstor_state-refused :
      (cfg : ℕ)
      → bit 4 m.xcr0 ≡ false
      → xrstor_state (marked cfg zeroed) 0x10 m ≡ fault general_protection
  unfolding xrstor_state
  xrstor_state-refused cfg lacks = ground (arith, bit_and-bit 4 m.xcr0)

xrstor_state_undefined :
    (m : Machine) → m.osxsave ≡ false → xrstor_state zeroed 0x18 m ≡ fault invalid_opcode
unfolding xrstor_state
xrstor_state_undefined m os = rw os

module _ {A : Type 0} (a : A) (cfg : ℕ) (m : Machine) where
  pub configuring_ok :
      m.osxsave ≡ true → bit 4 m.xcr0 ≡ true → configuring a cfg m ≡ ok a (configured cfg m)
  configuring_ok os has = rw (os, has)

  configuring_refused :
      m.osxsave ≡ true → bit 4 m.xcr0 ≡ false → configuring a cfg m ≡ fault general_protection
  configuring_refused os lacks = rw (os, lacks)

  configuring_undefined : m.osxsave ≡ false → configuring a cfg m ≡ fault invalid_opcode
  configuring_undefined off = rw off

-- Both functions are these two instructions.
two_restores :
    (cfg : ℕ) (m : Machine)
    → (xrstor_state zeroed 0x18 >> xrstor_state (marked cfg zeroed) 0x10) m ≡ configuring tt cfg m
two_restores cfg m = elim (Bool-cases m.osxsave) [
  | inr off ↦
      ap then_marked (xrstor_state_undefined m off) ∙ sym (configuring_undefined tt cfg m off)
  | inl os ↦ elim (Bool-cases (bit 4 m.xcr0)) [
    | inl has ↦
        ap then_marked (xrstor_state-zeroed m os)
        ∙ xrstor_state-marked (initialised m os) os cfg has
        ∙ sym (configuring_ok tt cfg m os has)
    | inr lacks ↦
        ap then_marked (xrstor_state-zeroed m os)
        ∙ xrstor_state-refused (initialised m os) os cfg lacks
        ∙ sym (configuring_refused tt cfg m os lacks)
  ]
]
  where
    then_marked : Outcome (Unit {0}) → Outcome (Unit {0})
    then_marked o = and_then o (λ _. xrstor_state (marked cfg zeroed) 0x10)

and_then-if :
    {A B : Type 0} (b : Bool) (x y : Outcome A) (k : A → Machine → Outcome B)
    → and_then (if b then x else y) k ≡ (if b then and_then x k else and_then y k)
and_then-if true x y k = refl
and_then-if false x y k = refl

-- The `return true` behind a change of the configuration.
configuring-return :
    (b : Bool) (cfg : ℕ) (m : Machine)
    → and_then (configuring tt cfg m) (λ _. ok b) ≡ configuring b cfg m
configuring-return b cfg m = simp and_then-if

enable_mpx_lem : (m : Machine) → enable_mpx m ≡ configuring tt 3 m
unfolding enable_mpx
enable_mpx_lem m = two_restores 3 m

disable_mpx_lem : (m : Machine) → disable_mpx m ≡ configuring tt 0 m
unfolding disable_mpx
disable_mpx_lem m = two_restores 0 m

pub process_specific_init_lem :
    (cpu : Cpu) (m : Machine)
    → process_specific_init cpu m
      ≡ (if check_mpx_support cpu then configuring true 3 m else ok false m)
unfolding process_specific_init
process_specific_init_lem cpu m = elim (Bool-cases (check_mpx_support cpu)) [
  | inl passes ↦ rw (passes, enable_mpx_lem m) (configuring-return true 3 m)
  | inr fails ↦ rw fails
]

pub process_specific_finish_lem :
    (cpu : Cpu) (m : Machine)
    → process_specific_finish cpu m
      ≡ (if check_mpx_support cpu then configuring true 0 m else ok false m)
unfolding process_specific_finish
process_specific_finish_lem cpu m = elim (Bool-cases (check_mpx_support cpu)) [
  | inl passes ↦ rw (passes, disable_mpx_lem m) (configuring-return true 0 m)
  | inr fails ↦ rw fails
]

-- On a processor that fails the check `process_specific_init` and `process_specific_finish` return false and
-- change nothing. On any other both end in #UD if the operating system has not enabled XSAVE, else in #GP if
-- XCR0 lacks component 4; else they return true, with BNDCFGU set to enable and preserve by the first and
-- cleared by the second, BNDSTATUS cleared, the bounds registers initialised if XCR0 has component 3, and
-- nothing else changed.
pub process_specific_init-process_specific_finish :
    (cpu : Cpu) (m : Machine)
    → (process_specific_init cpu m
        ≡ (if check_mpx_support cpu then configuring true 3 m else ok false m))
      × (process_specific_finish cpu m
          ≡ (if check_mpx_support cpu then configuring true 0 m else ok false m))
process_specific_init-process_specific_finish cpu m =
    (process_specific_init_lem cpu m, process_specific_finish_lem cpu m)
