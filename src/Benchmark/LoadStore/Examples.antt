-- ===== src/Benchmark/LoadStore/Examples.antt =====
-- A kernel that gives GS the selector 0 and clears the first byte of a page that is unmapped.
use simplex.Base.{◌≡◌, refl, arith, some, List, [], ◌∷◌}
use simplex.Cpuid.Samples.{intel_cpu}
use simplex.Machine.Samples.{idle, active}
use simplex.Machine.{mpx_on}
use simplex.Bounds.Frame.{IsReady}
use simplex.Runtime.Examples.{idle-IsHosted, intel_cpu-supported}
use simplex.SimplexString.Libgcc.{write}
use simplex.Benchmark.Alive.{IsCleared}
use simplex.Benchmark.LoadStore.{
  Processor, returns, gp, seg, mmx, xmm, bnd, Benchmark, stores, loads, Kernel, lifetime,
}
use simplex.Benchmark.LoadStore.Words.{HoldsWords}
use simplex.Benchmark.LoadStore.Trips.{val_of, trip, load-store}
use simplex.Benchmark.LoadStore.Lifetime.{IsKernel, lifetime-Completes}

abbrev processor : Processor
processor = record {
  machine = idle;
  r15 = 15;
  gs = 0x2B;
  gs_base = 0x4000;
  mm0 = 0x33;
  xmm1_low = 1;
  xmm1_high = 2;
  val = 0x1234_5678;
  clave = 0;
}

abbrev running : Processor
running = record processor { machine = active }

active-IsReady : IsReady active
unfolding mpx_on
active-IsReady = record {
  machine = record {
    lb_fits = λ n. omega arith;
    ub_fits = λ n. omega arith;
    bytes = λ x. omega arith;
  };
  on = refl;
}

load-store_example : val_of (trip xmm 7 running) ≡ some 0x1234_5678
load-store_example = load-store xmm 7 running (omega arith) active-IsReady

abbrev kernel : Kernel
kernel = record {
  syscall = λ number code addr p. record p { gs = 0; gs_base = addr };
  sys_arch_prctl = 158;
  arch_set_gs = 0x1001;
  mapped = 0x7000_0000;
  munmap = λ a mem. write mem a 0;
}

kernel-IsKernel : IsKernel kernel
kernel-IsKernel = record { sets_gs = λ p. (0, omega arith, refl) }

processor-HoldsWords : HoldsWords processor
processor-HoldsWords = record {
  r15_fits = omega arith;
  gs_fits = omega arith;
  mm0_fits = omega arith;
  low_fits = omega arith;
  high_fits = omega arith;
  val_fits = omega arith;
}

abbrev order : List Benchmark
order = stores gp ∷ stores xmm ∷ loads bnd ∷ stores bnd ∷ loads xmm ∷ loads seg ∷ loads mmx ∷ []

lifetime-Completes_example :
    (final : Processor) × (lifetime kernel intel_cpu (some 0xFEED) order processor ≡ returns final)
    × IsCleared final.machine
    × (final.gs_base ≡ 0x7000_0000)
lifetime-Completes_example =
    lifetime-Completes kernel kernel-IsKernel intel_cpu intel_cpu-supported (some 0xFEED) processor
      idle-IsHosted (omega arith) processor-HoldsWords refl order
