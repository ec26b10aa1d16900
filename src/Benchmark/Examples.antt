-- ===== src/Benchmark/Examples.antt =====
-- Buffers filled and corrupted with given random numbers; `libgcc_memcpy` stands for the C library's.
use simplex.Base.{
  ◌≤◌, ◌≢◌, sub64, IsWord, add64, ◌<◌, List, [], ◌∷◌, ℕ, ◌*◌, ◌%◌, ◌^◌, ◌≡◌, inl, arith, some,
}
use simplex.Cpuid.Samples.{intel_cpu}
use simplex.Machine.{bnd1, Machine}
use simplex.Machine.Bytes.{Memory}
use simplex.Machine.Samples.{idle}
use simplex.Runtime.Xsave.{ok}
use simplex.Runtime.Examples.{idle-IsHosted, intel_cpu-supported}
use simplex.SimplexString.Pointers.{AreBytes, write-AreBytes, forward_loop-AreBytes}
use simplex.Benchmark.Bodies.{Benchmark, hidden, plain, compares, moves, fills}
use simplex.Traversal.{Gpr}
use simplex.Traversal.Outcomes.{IsCore}
use simplex.Benchmark.Traverses.{called, traversal_set_up, Traversed, traversal_fixture-Traversed}
use simplex.Benchmark.TraversalFixture.{traversal_instances, traversal_run}
use simplex.Benchmark.Traversals.{AllServed, traversal_run-Completes}
use simplex.Benchmark.Spared.{IsOutside}
use simplex.Benchmark.Footprint.{AllFit, string_set_up-bodies}
use simplex.Benchmark.Fixtures.{size, instances, bodies, string_set_up, string_run}
use simplex.Benchmark.Alive.{IsCleared}
use simplex.Benchmark.Runs.{IsFree, string_run-Completes}
use simplex.Benchmark.Prepared.{AreBuffers, IsPrepared, inverted}
use simplex.Benchmark.Comparison.{Compared, string_fixture-Compared}
use simplex.SimplexString.Libgcc.{write, libgcc_memcpy}
use simplex.SimplexString.Copies.{forward_loop-copied}
use simplex.Benchmark.{IsMemcpy}

abbrev counting : Memory
counting x = x % 2 ^ 8

abbrev numbers : ℕ → ℕ
numbers k = k * 7919

abbrev memcpy : ℕ → ℕ → ℕ → Memory → Memory
memcpy d s len mem = (libgcc_memcpy d s len mem).1

memcpy-IsMemcpy : IsMemcpy memcpy
unfolding libgcc_memcpy
memcpy-IsMemcpy = record {
  copies = λ d s len mem hl hd hs fd fs apart.
      forward_loop-copied mem d s len hl hd hs fd fs (ground arith);
}

memcpy-AreBytes : (d s len : ℕ) (mem : Memory) → AreBytes mem → AreBytes (memcpy d s len mem)
unfolding libgcc_memcpy
memcpy-AreBytes d s len mem h = forward_loop-AreBytes len d s mem h

buffers-AreBuffers : AreBuffers 0x1000_0000 0x2000_0000 (idle.rsp)
buffers-AreBuffers = record {
  first_nonnull = omega arith;
  second_nonnull = omega arith;
  first_fits = omega arith;
  second_fits = omega arith;
  apart = omega arith;
  first_clear = λ i l. omega arith;
  second_clear = λ i l. omega arith;
}

string_fixture-Compared_example :
    (final : Machine) × (string_set_up numbers memcpy intel_cpu 0x1000_0000 0x2000_0000 idle
      ≡ ok tt final)
    × IsPrepared numbers (inverted numbers) 0x1000_0000 0x2000_0000 idle.rsp final
    × Compared (inverted numbers) 0x1000_0000 0x2000_0000 4096 final
string_fixture-Compared_example =
    string_fixture-Compared numbers memcpy memcpy-IsMemcpy memcpy-AreBytes intel_cpu
      intel_cpu-supported 0x1000_0000 0x2000_0000 buffers-AreBuffers idle-IsHosted 4096
      (omega arith)

-- An allocator that clears the first byte of what it takes back.
abbrev free : ℕ → Memory → Memory
free a mem = write mem a 0

-- Other objects are everywhere but at their first bytes.
abbrev Held : ℕ → Type 0
Held x = (x ≢ 0x1000_0000) × (x ≢ 0x2000_0000)

free-first : IsFree Held free 0x1000_0000
unfolding write
free-first = record {
  bytes = λ mem h. write-AreBytes mem 0x1000_0000 0 (omega arith) h;
  spares = λ mem x l. ground arith;
}

free-second : IsFree Held free 0x2000_0000
unfolding write
free-second = record {
  bytes = λ mem h. write-AreBytes mem 0x2000_0000 0 (omega arith) h;
  spares = λ mem x l. ground arith;
}

abbrev benchmarks : List Benchmark
benchmarks = compares plain 4096 ∷ compares hidden 4096 ∷ moves hidden 4096 ∷ fills hidden 4096 ∷ []

benchmarks-AllFit : AllFit benchmarks
benchmarks-AllFit = ground arith

string_run-Completes_example :
    (final : Machine) × (string_run numbers memcpy free intel_cpu 0x1000_0000 0x2000_0000 benchmarks
        idle
      ≡ ok tt final)
    × IsCleared final
    × ((x : ℕ)
        → IsOutside 0x1000_0000 idle.rsp x
        → size ≤ sub64 x 0x2000_0000
        → Held x
        → final.mem x ≡ idle.mem x)
string_run-Completes_example =
    string_run-Completes free-first free-second intel_cpu intel_cpu-supported numbers memcpy
      memcpy-IsMemcpy memcpy-AreBytes buffers-AreBuffers idle-IsHosted benchmarks benchmarks-AllFit

abbrev others : Gpr
others = record { rax = 1; rcx = 2; rdx = 3; rsi = 4; rdi = 5; rbp = 6; r8 = 7; r9 = 8 }

others-IsCore : (sz : ℕ) → IsWord sz → IsCore (called 0x5000 sz others idle)
others-IsCore sz fits = record {
  rax = omega arith;
  rcx = omega arith;
  rdx = omega arith;
  rsi = fits;
  rdi = omega arith;
  rbp = omega arith;
  r8 = omega arith;
  r9 = omega arith;
  rsp = omega arith;
}

traversal_fixture-Traversed_example :
    (final : Machine) × (traversal_set_up numbers intel_cpu 0x1000_0000 idle ≡ ok tt final)
    × Traversed 2048 0x1000_0000 0x5000 4096 others final
traversal_fixture-Traversed_example =
    traversal_fixture-Traversed numbers intel_cpu intel_cpu-supported 2048 0x1000_0000 0x5000 4096
      others idle-IsHosted (others-IsCore 4096 (omega arith)) (omega arith) (omega arith)
      (inl (omega arith)) (omega arith)

traversal_instances-AllServed : AllServed 0x10_0000 0x5000 idle (traversal_instances others)
traversal_instances-AllServed = (
  record { core = others-IsCore 4096 (omega arith); enough = omega arith },
  (
    record { core = others-IsCore 0x20_0000 (omega arith); enough = omega arith },
    (
      record { core = others-IsCore 4096 (omega arith); enough = omega arith },
      (record { core = others-IsCore 0x20_0000 (omega arith); enough = omega arith }, tt),
    ),
  ),
)

traversal_run-Completes_example :
    (final : Machine) × (traversal_run numbers free intel_cpu 0x1000_0000 0x10_0000 0x5000
        (traversal_instances others)
        idle
      ≡ some (ok tt final))
    × IsCleared final
traversal_run-Completes_example =
    traversal_run-Completes free intel_cpu intel_cpu-supported 0x1000_0000 numbers 0x10_0000 0x5000
      idle-IsHosted (traversal_instances others) traversal_instances-AllServed

instances-AllFit : AllFit instances
instances-AllFit = ground arith

string_set_up-bodies_example :
    (prepared : Machine) × (final : Machine) × (string_set_up numbers memcpy intel_cpu 0x1000_0000
        0x2000_0000 idle
      ≡ ok tt prepared)
    × (bodies 0x1000_0000 0x2000_0000 instances prepared ≡ ok tt final)
    × ((x : ℕ) → IsOutside 0x1000_0000 idle.rsp x → final.mem x ≡ prepared.mem x)
    × ((i : ℕ) → i < size → final.mem (add64 0x2000_0000 i) ≡ prepared.mem (add64 0x2000_0000 i))
    × ((final.bnds bnd1).lb ≡ 0x1000_0000)
string_set_up-bodies_example =
    string_set_up-bodies numbers memcpy memcpy-IsMemcpy memcpy-AreBytes intel_cpu
      intel_cpu-supported 0x1000_0000 0x2000_0000 buffers-AreBuffers idle-IsHosted instances
      instances-AllFit
