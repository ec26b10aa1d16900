-- ===== src/KernelModule/Log.antt =====
-- What the check of simplex/eval/kmod/simplexkm.c prints.
use simplex.Base.{
  ◌≡◌, arith, Bool, true, false, not, if◌then◌else◌, ltb, String, List, [], ◌∷◌, Option, none, some,
  bit_and-bit,
}
use simplex.Cpuid.{Cpu}
use simplex.KernelModule.Cpuid.{get_cpuid_max}
use simplex.Runtime.Xsave.{bit}
use simplex.KernelModule.{Line, info, err, check_no_mpx_support}

-- A requirement: whether the processor meets it, and the complaint if it does not.
abbrev pub Requirement : Type 0
Requirement = Bool × String

abbrev pub first_missing : List Requirement → Option String
first_missing [] = none
first_missing ((met, why) ∷ rest) = if met then first_missing rest else some why

abbrev pub requirements : Cpu → List Requirement
requirements cpu =
    (not (ltb (get_cpuid_max cpu 0 false).0 13), "No required CPUID level support.")
    ∷ (bit 26 (cpu.query 0 0).ecx, "No XSAVE support.")
    ∷ (bit 27 (cpu.query 0 0).ecx, "No OSXSAVE support.")
    ∷ (bit 14 (cpu.query 7 0).ebx, "No MPX support.")
    ∷ (bit 3 (cpu.query 13 0).eax, "No BNDREGS support.")
    ∷ (bit 4 (cpu.query 13 0).eax, "No BNDCSR support.")
    ∷ []

abbrev pub verdict : Option String → Bool × List Line
verdict none = (false, info "Checking MPX support." ∷ info "MPX supported!" ∷ [])
verdict (some why) = (true, info "Checking MPX support." ∷ err why ∷ [])

-- The check of the kernel module goes through its requirements in order and prints, behind its opening
-- line, the complaint about the first one that is not met, or that MPX is supported.
pub check_no_mpx_support-verdict :
    (cpu : Cpu) → check_no_mpx_support cpu ≡ verdict (first_missing (requirements cpu))
unfolding check_no_mpx_support
check_no_mpx_support-verdict cpu = ground (
  arith,
  bit_and-bit 26 (cpu.query 0 0).ecx,
  bit_and-bit 27 (cpu.query 0 0).ecx,
  bit_and-bit 14 (cpu.query 7 0).ebx,
  bit_and-bit 3 (cpu.query 13 0).eax,
  bit_and-bit 4 (cpu.query 13 0).eax,
)
