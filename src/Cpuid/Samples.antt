-- ===== src/Cpuid/Samples.antt =====
-- Processors for tests.
use simplex.Base.{ℕ, ◌+◌, ◌^◌, none, ◌==◌, if◌then◌else◌}
use simplex.Cpuid.{Regs, Cpu}

abbrev leaves : (ℕ → Regs) → ℕ → ℕ → Regs
leaves f level count = f level

-- An Intel processor with MPX: level 0 signs, levels 7 and 13 have the feature bits.
abbrev pub intel_cpu : Cpu
intel_cpu = record {
  query = leaves λ level.
      if level == 0
      then record { eax = 22; ebx = 0x756e6547; ecx = 0x6c65746e; edx = 0x49656e69 }
      else if level == 7
      then record { eax = 0; ebx = 2 ^ 14; ecx = 0; edx = 0 }
      else if level == 13
      then record { eax = 2 ^ 3 + 2 ^ 4; ebx = 0; ecx = 0; edx = 0 }
      else record { eax = 0; ebx = 0; ecx = 0; edx = 0 };
  stale_ecx = 0;
  flags = none;
}

-- A processor whose highest level is 2.
abbrev pub old_cpu : Cpu
old_cpu = record intel_cpu {
  query = leaves λ level. record { eax = 2; ebx = level; ecx = 0x6c65746e; edx = 0 };
}
