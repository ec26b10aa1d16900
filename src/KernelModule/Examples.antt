-- ===== src/KernelModule/Examples.antt =====
-- Loading and unloading the kernel module on a processor with MPX and on one without.
use simplex.Base.{◌≡◌, ◌==◌, refl, true, [], ◌∷◌}
use simplex.KernelModule.Cpuid.{cpuid, cpuid_count, get_cpuid_max, lacks_cpuid}
use simplex.Cpuid.Samples.{intel_cpu, old_cpu}
use simplex.Machine.Samples.{idle}
use simplex.Runtime.Support.{check_mpx_support}
use simplex.Runtime.Xsave.{ok, and_then, xsave_hdr_member, bndregs_member, bndcsr_member}
use simplex.KernelModule.Structs.{offset_of}
use simplex.Runtime.Process.{process_specific_init, process_specific_finish}
use simplex.KernelModule.{info, err, check_no_mpx_support, enable_init, enable_cleanup}
use simplex.KernelModule.Load.{enable_init-enable_cleanup}
use simplex.KernelModule.Log.{verdict, first_missing, requirements, check_no_mpx_support-verdict}

refused :
    check_no_mpx_support old_cpu
    ≡ (true, info "Checking MPX support." ∷ err "No required CPUID level support." ∷ [])
unfolding check_no_mpx_support get_cpuid_max cpuid_count cpuid lacks_cpuid
refused = refl

enable_init-enable_cleanup_example :
    (and_then (enable_init intel_cpu idle) (λ r. ok (r.0 == 0))
      ≡ process_specific_init intel_cpu idle)
    × (and_then (enable_cleanup intel_cpu idle) (λ _. ok (check_mpx_support intel_cpu))
        ≡ process_specific_finish intel_cpu idle)
enable_init-enable_cleanup_example = enable_init-enable_cleanup intel_cpu idle

check_no_mpx_support-verdict_example :
    check_no_mpx_support intel_cpu ≡ verdict (first_missing (requirements intel_cpu))
check_no_mpx_support-verdict_example = check_no_mpx_support-verdict intel_cpu

-- Where the processor looks for the header and the two components.
header-offset : offset_of xsave_hdr_member ≡ 512
unfolding offset_of
header-offset = refl

components-offset : (offset_of bndregs_member ≡ 960) × (offset_of bndcsr_member ≡ 1024)
unfolding offset_of
components-offset = (refl, refl)
