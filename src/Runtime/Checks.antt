-- ===== src/Runtime/Checks.antt =====
-- What `check_mpx_support` of simplex/lib/mpxrt.c asks the processor.
use simplex.Base.{◌≤◌, ◌≡◌, ◌↔◌, ◌⊎◌, inl, inr, refl, arith, true, false, bit_and-bit}
use simplex.Cpuid.{Cpu, cpuid, lacks_cpuid}
use simplex.Cpuid.Vendor.{Vendor, amd, intel, nexgen, signature}
use simplex.Runtime.Support.{check_mpx_support}
use simplex.Runtime.Xsave.{bit}

-- The tests, bit by bit.
pub record IsSupported (cpu : Cpu) : Type 0 where
  pub has_cpuid : lacks_cpuid cpu.flags ≡ false
  pub levels : 13 ≤ (cpuid cpu 0).eax
  pub has_xsave : bit 26 (cpu.query 0 0).ecx ≡ true
  pub has_osxsave : bit 27 (cpu.query 0 0).ecx ≡ true
  pub has_mpx : bit 14 (cpu.query 7 0).ebx ≡ true
  pub has_bndregs : bit 3 (cpu.query 13 0).eax ≡ true
  pub has_bndcsr : bit 4 (cpu.query 13 0).eax ≡ true

module _ (cpu : Cpu) where
  -- The check passes exactly on the processors that have CPUID, level 13 and the five feature bits,
  -- two of them taken from ECX of level 0.
  pub check_mpx_support_iff : (check_mpx_support cpu ≡ true) ↔ IsSupported cpu
  unfolding check_mpx_support
  check_mpx_support_iff = ground (
    arith,
    bit_and-bit 26 (cpu.query 0 0).ecx,
    bit_and-bit 27 (cpu.query 0 0).ecx,
    bit_and-bit 14 (cpu.query 7 0).ebx,
    bit_and-bit 3 (cpu.query 13 0).eax,
    bit_and-bit 4 (cpu.query 13 0).eax,
  )

-- The two bits that are read at level 0, of the signatures that simplex/include/cpuid.h lists.
signature_bits :
    (v : Vendor)
    → bit 26 (signature v).ecx ≡ true
    → bit 27 (signature v).ecx ≡ true
    → (v ≡ intel) ⊎ (v ≡ nexgen)
unfolding signature
signature_bits amd x o = cc
signature_bits intel x o = inl refl
signature_bits nexgen x o = inr refl
signature_bits _ x o = cc

-- A processor whose level 0 returns in ECX what simplex/include/cpuid.h lists for a vendor can pass
-- the check only if that vendor is Intel or NexGen, whatever features it has.
pub vendor_of_supported :
    (v : Vendor) (cpu : Cpu)
    → (cpu.query 0 0).ecx ≡ (signature v).ecx
    → check_mpx_support cpu ≡ true
    → (v ≡ intel) ⊎ (v ≡ nexgen)
vendor_of_supported v cpu e h =
    let s = (check_mpx_support_iff cpu).0 h in
    signature_bits v (rw (← e) s.has_xsave) (rw (← e) s.has_osxsave)
