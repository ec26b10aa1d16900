-- ===== src/Cpuid.antt =====
-- simplex/include/cpuid.h: the `cpuid` instruction and the functions that ask it. The answers of the
-- processor are a parameter. simplex/eval/kmod/simplexkm.h holds the same text once more.
pub mod Vendor
pub mod Leaves
pub mod Features
pub mod Names
pub mod Samples
mod Examples
use simplex.Base.{
  ℕ, ◌^◌, Bool, true, false, ◌||◌, Option, none, some, bit_and, bit_xor, ltb, ◌==◌, if◌then◌else◌,
}

pub record Regs : Type 0 where
  pub eax : ℕ
  pub ebx : ℕ
  pub ecx : ℕ
  pub edx : ℕ

-- A processor as `cpuid` shows it. `flags` are the two readings of EFLAGS, the second with the ID bit
-- toggled, that a 32-bit build compares first; a 64-bit build has `none`.
pub record Cpu : Type 0 where
  pub query : ℕ → ℕ → Regs
  pub stale_ecx : ℕ
  pub flags : Option (ℕ × ℕ)

-- `__cpuid` leaves ECX as it finds it.
unfoldable pub cpuid : Cpu → ℕ → Regs
cpuid cpu level = cpu.query level cpu.stale_ecx

unfoldable pub cpuid_count : Cpu → ℕ → ℕ → Regs
cpuid_count cpu level count = cpu.query level count

-- `!((__eax ^ __ebx) & 0x00200000)`: the ID bit of EFLAGS cannot be toggled.
unfoldable pub lacks_cpuid : Option (ℕ × ℕ) → Bool
lacks_cpuid none = false
lacks_cpuid (some (eax, ebx)) = bit_and (bit_xor eax ebx) 0x00200000 == 0

-- `__get_cpuid_max`: the highest level, and what is stored to `*__sig`, if that pointer is not null.
unfoldable pub get_cpuid_max : Cpu → ℕ → Bool → ℕ × Option ℕ
unfolding cpuid
get_cpuid_max cpu ext sig =
    if lacks_cpuid cpu.flags
    then (0, none)
    else let r = cpuid cpu ext in (r.eax, if sig then some r.ebx else none)

-- `none` is the return of 0, which stores nothing.
unfoldable pub get_cpuid : Cpu → ℕ → Option Regs
unfolding cpuid
get_cpuid cpu leaf =
    let ext = bit_and leaf 0x80000000 in
    let maxlevel = (get_cpuid_max cpu ext false).0 in
    if maxlevel == 0 || ltb maxlevel leaf then none else some (cpuid cpu leaf)

unfoldable pub get_cpuid_count : Cpu → ℕ → ℕ → Option Regs
unfolding cpuid_count
get_cpuid_count cpu leaf subleaf =
    let ext = bit_and leaf 0x80000000 in
    let maxlevel = (get_cpuid_max cpu ext false).0 in
    if maxlevel == 0 || ltb maxlevel leaf then none else some (cpuid_count cpu leaf subleaf)

-- The feature bits that are tested.
abbrev pub bit_xsave : ℕ
bit_xsave = 2 ^ 26

abbrev pub bit_osxsave : ℕ
bit_osxsave = 2 ^ 27

abbrev pub bit_mpx : ℕ
bit_mpx = 2 ^ 14

abbrev pub bit_bndregs : ℕ
bit_bndregs = 2 ^ 3

abbrev pub bit_bndcsr : ℕ
bit_bndcsr = 2 ^ 4
