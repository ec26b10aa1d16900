-- ===== src/Runtime/Support.antt =====
-- `check_mpx_support` of simplex/lib/mpxrt.c.
use simplex.Base.{Bool, true, false, not, bit_and, ltb, truth, if◌then◌else◌}
use simplex.Cpuid.{
  Cpu, cpuid_count, get_cpuid_max, bit_xsave, bit_osxsave, bit_mpx, bit_bndregs, bit_bndcsr,
}

unfoldable pub check_mpx_support : Cpu → Bool
unfolding get_cpuid_max cpuid_count
check_mpx_support cpu =
    let max_level = (get_cpuid_max cpu 0 false).0 in
    if ltb max_level 13
    then false
    else let ecx = (cpuid_count cpu 0 0).ecx in
      if not (truth (bit_and ecx bit_xsave))
      then false
      else if not (truth (bit_and ecx bit_osxsave))
      then false
      else let ebx = (cpuid_count cpu 7 0).ebx in
        if not (truth (bit_and ebx bit_mpx))
        then false
        else let eax = (cpuid_count cpu 13 0).eax in
          if not (truth (bit_and eax bit_bndregs))
          then false
          else if not (truth (bit_and eax bit_bndcsr))
          then false
          else true
