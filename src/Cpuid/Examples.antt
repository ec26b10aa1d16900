-- ===== src/Cpuid/Examples.antt =====
-- A level that a processor answers for.
use simplex.Base.{◌≡◌, ◌↔◌, arith, some}
use simplex.Cpuid.{get_cpuid_count}
use simplex.Cpuid.Leaves.{IsAnswered, get_cpuid_count_iff}
use simplex.Cpuid.Samples.{intel_cpu}

get_cpuid_count_iff_example :
    (get_cpuid_count intel_cpu 7 0 ≡ some (intel_cpu.query 7 0))
    ↔ (IsAnswered intel_cpu 7 × (intel_cpu.query 7 0 ≡ intel_cpu.query 7 0))
get_cpuid_count_iff_example = get_cpuid_count_iff intel_cpu 7 0 (intel_cpu.query 7 0) (omega arith)
