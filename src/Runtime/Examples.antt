-- ===== src/Runtime/Examples.antt =====
-- Runs of the runtime on a processor with MPX, and the layout of the XSAVE area.
use simplex.Runtime.Directory.{x86_64}
use simplex.Runtime.Pages.{Fits, directory-Fits}
use simplex.Base.{ℕ, ◌≡◌, ◌⊎◌, ◌↔◌, refl, arith, true, false, List, [], ◌∷◌, if◌then◌else◌}
use simplex.Cpuid.{cpuid, cpuid_count, get_cpuid_max, lacks_cpuid}
use simplex.Cpuid.Vendor.{intel, nexgen, signature}
use simplex.Cpuid.Samples.{intel_cpu, old_cpu}
use simplex.Machine.{Machine, mpx_on}
use simplex.Machine.Samples.{idle, active}
use simplex.Bounds.Api.{Call, view, promise_all, get_lower, set_lower, get_both}
use simplex.Bounds.Interrupts.Code.{run, code_all}
use simplex.Bounds.Interrupts.Safety.{disturbed}
use simplex.Bounds.Interrupts.Transparent.{Executed-run}
use simplex.Runtime.Support.{check_mpx_support}
use simplex.Runtime.Xsave.{
  zeroed, and_then, xrstor_state, ok, size_of, offset_of, xsave_hdr_member, bndregs_member,
  bndcsr_member,
}
use simplex.Runtime.Process.{process_specific_init, process_specific_finish}
use simplex.Runtime.Outcomes.{
  configured, configuring, process_specific_init-process_specific_finish,
}
use simplex.Runtime.Checks.{IsSupported, check_mpx_support_iff, vendor_of_supported}
use simplex.Runtime.Lifecycle.{
  IsHosted, Event, starts, finishes, calls, react_all, Ends, react_all-Ends, init_ok,
}
use simplex.Runtime.Saves.{IsHonest, xsave_state, with_mpx_of, xrstor_state-xsave_state}
use simplex.Runtime.Session.{Serves, session-Serves, all_addresses}
use simplex.Runtime.Branches.{branch, branches, code_all-promise_all}

pub idle-IsHosted : IsHosted idle
idle-IsHosted = record {
  machine = record {
    lb_fits = λ n. omega arith;
    ub_fits = λ n. omega arith;
    bytes = λ x. omega arith;
  };
  os = refl;
  has_bndregs = refl;
  has_bndcsr = refl;
}

pub intel_cpu-supported : check_mpx_support intel_cpu ≡ true
unfolding check_mpx_support get_cpuid_max cpuid_count cpuid lacks_cpuid
intel_cpu-supported = refl

old_cpu-unsupported : check_mpx_support old_cpu ≡ false
unfolding check_mpx_support get_cpuid_max cpuid_count cpuid lacks_cpuid
old_cpu-unsupported = refl

header-offset : offset_of xsave_hdr_member ≡ 512
unfolding offset_of size_of
header-offset = refl

bndregs-offset : offset_of bndregs_member ≡ 960
unfolding offset_of size_of
bndregs-offset = refl

bndcsr-offset : offset_of bndcsr_member ≡ 1024
unfolding offset_of size_of
bndcsr-offset = refl

session-Serves_example : Serves intel_cpu (set_lower 0 77 ∷ get_both 0 ∷ []) idle
session-Serves_example =
    session-Serves intel_cpu (set_lower 0 77 ∷ get_both 0 ∷ []) intel_cpu-supported idle-IsHosted
      (omega arith, (tt, tt))

abbrev events : List Event
events = starts ∷ calls (set_lower 2 5) ∷ finishes ∷ calls (get_lower 2) ∷ []

react_all-Ends_example : Ends false (react_all intel_cpu events idle)
unfolding mpx_on
react_all-Ends_example =
    react_all-Ends intel_cpu intel_cpu-supported events idle-IsHosted
      (tt, (omega arith, (tt, (tt, tt))))

process_specific_init-process_specific_finish_example :
    (process_specific_init intel_cpu idle
      ≡ (if check_mpx_support intel_cpu then configuring true 3 idle else ok false idle))
    × (process_specific_finish intel_cpu idle
        ≡ (if check_mpx_support intel_cpu then configuring true 0 idle else ok false idle))
process_specific_init-process_specific_finish_example =
    process_specific_init-process_specific_finish intel_cpu idle

check_mpx_support_iff_example : (check_mpx_support intel_cpu ≡ true) ↔ IsSupported intel_cpu
check_mpx_support_iff_example = check_mpx_support_iff intel_cpu

intel_cpu-signed : (intel_cpu.query 0 0).ecx ≡ (signature intel).ecx
unfolding signature
intel_cpu-signed = refl

vendor_of_supported_example : (intel ≡ intel) ⊎ (intel ≡ nexgen)
vendor_of_supported_example =
    vendor_of_supported intel intel_cpu intel_cpu-signed intel_cpu-supported

-- A processor that always has every component in use.
abbrev always : Machine → ℕ
always m = 0x1F

always-IsHonest : IsHonest always
always-IsHonest = record { bndregs_out = λ m e. cc; bndcsr_out = λ m e. cc }

xrstor_state-xsave_state_example :
    and_then (xsave_state always zeroed 0x18 active) (λ fx _. xrstor_state fx 0x18 idle)
    ≡ ok tt (with_mpx_of active idle)
xrstor_state-xsave_state_example =
    xrstor_state-xsave_state always active idle always-IsHonest refl refl refl refl refl

directory-Fits_example : Fits x86_64 0x7FFF_1234_5679
directory-Fits_example = directory-Fits x86_64 0x7FFF_1234_5679 (omega arith)

abbrev asks : List Call
asks = set_lower 1 0xDEAD ∷ get_lower 1 ∷ []

abbrev started : Machine
started = configured 3 idle

code_all-promise_all_example :
    ((run (code_all asks) (branch started)).0 ≡ (promise_all asks all_addresses).0)
    × (view (run (code_all asks) (branch started)).1 ≡ (promise_all asks all_addresses).1)
code_all-promise_all_example =
    code_all-promise_all intel_cpu intel_cpu-supported idle-IsHosted
      (init_ok intel_cpu intel_cpu-supported idle-IsHosted) asks (omega arith, (tt, tt))
      (disturbed (branches started) (Executed-run (code_all asks) (branch started)))
