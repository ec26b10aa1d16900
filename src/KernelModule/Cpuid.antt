-- ===== src/KernelModule/Cpuid.antt =====
-- The `cpuid` functions of simplex/eval/kmod/simplexkm.h, which is a second copy of the text of
-- simplex/include/cpuid.h. `Cpu` is the processor, as there.
use simplex.Base.{
  ℕ, ◌^◌, Bool, false, ◌||◌, Option, none, some, bit_and, bit_xor, ltb, ◌==◌, if◌then◌else◌,
}
use simplex.Cpuid.{Regs, Cpu}
use simplex.Cpuid.Vendor.{
  Vendor, amd, centaur, cyrix, intel, tm1, tm2, nsc, nexgen, rise, sis, umc, via, vortex, Signature,
}

-- `__cpuid` leaves ECX as it finds it.
unfoldable pub cpuid : Cpu → ℕ → Regs
cpuid cpu level = cpu.query level cpu.stale_ecx

unfoldable pub cpuid_count : Cpu → ℕ → ℕ → Regs
cpuid_count cpu level count = cpu.query level count

-- `!((__eax ^ __ebx) & 0x00200000)`: the ID bit of EFLAGS cannot be toggled.
unfoldable pub lacks_cpuid : Option (ℕ × ℕ) → Bool
lacks_cpuid none = false
lacks_cpuid (some (eax, ebx)) = bit_and (bit_xor eax ebx) 0x00200000 == 0

-- `__get_cpuid_max`: the highest level, and what is stored to `*__sig`, if that pointer is not null.
unfoldable pub get_cpuid_max : Cpu → ℕ → Bool → ℕ × Option ℕ
unfolding cpuid
get_cpuid_max cpu ext sig =
    if lacks_cpuid cpu.flags
    then (0, none)
    else let r = cpuid cpu ext in (r.eax, if sig then some r.ebx else none)

-- `none` is the return of 0, which stores nothing.
unfoldable pub get_cpuid : Cpu → ℕ → Option Regs
unfolding cpuid
get_cpuid cpu leaf =
    let ext = bit_and leaf 0x80000000 in
    let maxlevel = (get_cpuid_max cpu ext false).0 in
    if maxlevel == 0 || ltb maxlevel leaf then none else some (cpuid cpu leaf)

unfoldable pub get_cpuid_count : Cpu → ℕ → ℕ → Option Regs
unfolding cpuid_count
get_cpuid_count cpu leaf subleaf =
    let ext = bit_and leaf 0x80000000 in
    let maxlevel = (get_cpuid_max cpu ext false).0 in
    if maxlevel == 0 || ltb maxlevel leaf then none else some (cpuid_count cpu leaf subleaf)

-- The feature bits that are tested.
abbrev pub bit_xsave : ℕ
bit_xsave = 2 ^ 26

abbrev pub bit_osxsave : ℕ
bit_osxsave = 2 ^ 27

abbrev pub bit_mpx : ℕ
bit_mpx = 2 ^ 14

abbrev pub bit_bndregs : ℕ
bit_bndregs = 2 ^ 3

abbrev pub bit_bndcsr : ℕ
bit_bndcsr = 2 ^ 4

-- The vendor signatures.
abbrev sig : ℕ → ℕ → ℕ → Signature
sig b c d = record { ebx = b; ecx = c; edx = d }

unfoldable pub signature : Vendor → Signature
signature amd = sig 0x68747541 0x444d4163 0x69746e65
signature centaur = sig 0x746e6543 0x736c7561 0x48727561
signature cyrix = sig 0x69727943 0x64616574 0x736e4978
signature intel = sig 0x756e6547 0x6c65746e 0x49656e69
signature tm1 = sig 0x6e617254 0x55504361 0x74656d73
signature tm2 = sig 0x756e6547 0x3638784d 0x54656e69
signature nsc = sig 0x646f6547 0x43534e20 0x79622065
signature nexgen = sig 0x4778654e 0x6e657669 0x72446e65
signature rise = sig 0x65736952 0x65736952 0x65736952
signature sis = sig 0x20536953 0x20536953 0x20536953
signature umc = sig 0x20434d55 0x20434d55 0x20434d55
signature via = sig 0x20414956 0x20414956 0x20414956
signature vortex = sig 0x74726f56 0x436f5320 0x36387865
