-- ===== src/KernelModule.antt =====
-- The kernel module simplex/eval/kmod/simplexkm.c. Its children hold its copies of the library's texts:
-- the functions and the feature bits of simplex/eval/kmod/simplexkm.h, and its structures, static variables
-- and instructions.
pub mod Cpuid
pub mod Features
pub mod Structs
pub mod Directory
pub mod Load
pub mod Log
mod Examples
use simplex.Base.{
  ℕ, ◌+◌, Bool, true, false, not, bit_and, ltb, truth, if◌then◌else◌, String, List, [], ◌∷◌, ◌++◌,
}
use simplex.Cpuid.{Cpu}
use Cpuid.{cpuid_count, get_cpuid_max, bit_xsave, bit_osxsave, bit_mpx, bit_bndregs, bit_bndcsr}
use Structs.{xrstor_state, marked, cfg_enabled, enable, bndpreserve}
use simplex.Machine.{Machine}
use simplex.Runtime.Xsave.{zeroed, Outcome, ok, and_then}

-- A line that `printk` writes, by its level.
pub data Line : Type 0 where
  info err : String → Line
  info_number : String → ℕ → Line

abbrev checking : Line
checking = info "Checking MPX support."

abbrev refuse : String → Bool × List Line
refuse why = (true, checking ∷ err why ∷ [])

-- The result comes with the lines printed. As in the source, true says that support is missing.
unfoldable pub check_no_mpx_support : Cpu → Bool × List Line
unfolding get_cpuid_max cpuid_count
check_no_mpx_support cpu =
    let max_level = (get_cpuid_max cpu 0 false).0 in
    if ltb max_level 13
    then refuse "No required CPUID level support."
    else let ecx = (cpuid_count cpu 0 0).ecx in
      if not (truth (bit_and ecx bit_xsave))
      then refuse "No XSAVE support."
      else if not (truth (bit_and ecx bit_osxsave))
      then refuse "No OSXSAVE support."
      else let ebx = (cpuid_count cpu 7 0).ebx in
        if not (truth (bit_and ebx bit_mpx))
        then refuse "No MPX support."
        else let eax = (cpuid_count cpu 13 0).eax in
          if not (truth (bit_and eax bit_bndregs))
          then refuse "No BNDREGS support."
          else if not (truth (bit_and eax bit_bndcsr))
          then refuse "No BNDCSR support."
          else (false, checking ∷ info "MPX supported!" ∷ [])

-- The kernel log beside the machine: a step returns the lines that it adds.
abbrev Step : Type 0 → Type 0
Step A = Machine → Outcome (A × List Line)

abbrev prints : {A : Type 0} → List Line → (Machine → Outcome A) → Step A
prints lines f m = and_then (f m) (λ a. ok (a, lines))

unfoldable pub enable_mpx : Step (Unit {0})
unfolding xrstor_state
enable_mpx m = and_then (xrstor_state zeroed 0x18 m) λ _.
    prints
      (info "Initalizing MPX..."
        ∷ info_number "  Enable bit: " enable
        ∷ info_number "  BNDPRESERVE bit: " bndpreserve
        ∷ [])
      (xrstor_state (marked cfg_enabled zeroed) 0x10)

unfoldable pub disable_mpx : Step (Unit {0})
unfolding xrstor_state
disable_mpx m =
    and_then (xrstor_state zeroed 0x18 m)
      λ _. prints (info "Disabling MPX..." ∷ []) (xrstor_state (marked 0 zeroed) 0x10)

-- The return value of `module_init`: anything but 0 refuses the module.
unfoldable pub enable_init : Cpu → Step ℕ
enable_init cpu m =
    let (unsupported, lines) = check_no_mpx_support cpu in
    if unsupported then ok (1, lines) m else and_then (enable_mpx m) λ r. ok (0, lines ++ r.1)

unfoldable pub enable_cleanup : Cpu → Step (Unit {0})
enable_cleanup cpu m =
    let (unsupported, lines) = check_no_mpx_support cpu in
    if unsupported then ok (tt, lines) m else and_then (disable_mpx m) λ r. ok (tt, lines ++ r.1)
