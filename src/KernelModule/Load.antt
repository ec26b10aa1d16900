-- ===== src/KernelModule/Load.antt =====
-- Loading and unloading the kernel module, beside `process_specific_init` and `process_specific_finish`.
use simplex.Base.{◌==◌, ◌≡◌, refl, arith, not, inl, inr, Bool-cases}
use simplex.Cpuid
use simplex.Cpuid.{Cpu}
use simplex.KernelModule.Cpuid as KCpuid
use simplex.Machine.{Machine}
use simplex.Runtime.Support.{check_mpx_support}
use simplex.Runtime.Xsave.{Outcome, ok, fault, and_then}
use simplex.Runtime.Process
use simplex.Runtime.Process.{process_specific_init, process_specific_finish}
use simplex.KernelModule.{
  check_no_mpx_support, enable_mpx, disable_mpx, enable_init, enable_cleanup,
}

-- The kernel module's check is the library's, negated.
check_no_mpx_support-not : (cpu : Cpu) → (check_no_mpx_support cpu).0 ≡ not (check_mpx_support cpu)
unfolding check_no_mpx_support check_mpx_support KCpuid.lacks_cpuid Cpuid.lacks_cpuid KCpuid.cpuid
    Cpuid.cpuid KCpuid.cpuid_count Cpuid.cpuid_count
check_no_mpx_support-not cpu = ground arith

and_then_assoc :
    {A B C : Type 0} (o : Outcome A) (f : A → Machine → Outcome B) (g : B → Machine → Outcome C)
    → and_then (and_then o f) g ≡ and_then o (λ a m. and_then (f a m) g)
and_then_assoc (ok a m) f g = refl
and_then_assoc (fault e) f g = refl

enable_init_lem :
    (cpu : Cpu) (m : Machine)
    → and_then (enable_init cpu m) (λ r. ok (r.0 == 0)) ≡ process_specific_init cpu m
unfolding enable_init enable_mpx process_specific_init Process.enable_mpx
enable_init_lem cpu m = elim (Bool-cases (check_mpx_support cpu)) [
  | inl passes ↦ rw (check_no_mpx_support-not cpu, passes) (simp and_then_assoc)
  | inr fails ↦ rw (check_no_mpx_support-not cpu, fails)
]

enable_cleanup_lem :
    (cpu : Cpu) (m : Machine)
    → and_then (enable_cleanup cpu m) (λ _. ok (check_mpx_support cpu))
      ≡ process_specific_finish cpu m
unfolding enable_cleanup disable_mpx process_specific_finish Process.disable_mpx
enable_cleanup_lem cpu m = elim (Bool-cases (check_mpx_support cpu)) [
  | inl passes ↦ rw (check_no_mpx_support-not cpu, passes) (simp and_then_assoc)
  | inr fails ↦ rw (check_no_mpx_support-not cpu, fails)
]

-- `module_init` returns 0 where `process_specific_init` returns true and something else where it returns
-- false, leaves the same machine, and faults where it faults; `module_exit` leaves the machine as
-- `process_specific_finish` does, and faults where it faults.
pub enable_init-enable_cleanup :
    (cpu : Cpu) (m : Machine)
    → (and_then (enable_init cpu m) (λ r. ok (r.0 == 0)) ≡ process_specific_init cpu m)
      × (and_then (enable_cleanup cpu m) (λ _. ok (check_mpx_support cpu))
          ≡ process_specific_finish cpu m)
enable_init-enable_cleanup cpu m = (enable_init_lem cpu m, enable_cleanup_lem cpu m)
