-- ===== src/Benchmark/Fixtures.antt =====
-- `StringFixture` of simplex/eval/benchmark/benchmark.cpp: `SetUp`, the benchmarks and `TearDown`. What
-- `malloc` returned is an argument; `rand` and `memcpy` are parameters as in the parent, and so is what
-- `free` does to memory.
use simplex.Base.{ℕ, Option, none, some, ◌-◌, ◌*◌, ◌==◌, if◌then◌else◌, List, [], ◌∷◌}
use simplex.Cpuid.{Cpu}
use simplex.Machine.{Machine, M}
use simplex.Machine.Bytes.{Memory}
use simplex.Bounds.Mutators.{qsetbndl}
use simplex.Runtime.Xsave.{Outcome, ok, fault, divide_error, ◌>>=◌, ◌>>◌}
use simplex.Runtime.Process.{process_specific_init, process_specific_finish}
use simplex.Benchmark.Bodies.{
  Benchmark, hidden, plain, compares, copies, moves, fills, searches, body,
}
use simplex.Benchmark.{kb, mb, randomize, corrupt}

-- The size of both buffers.
abbrev pub size : ℕ
size = 4 * mb

-- What ends without a fault, over the machine and over its memory.
abbrev pub certain : {A : Type 0} → M A → Machine → Outcome A
certain f m = ok (f m).0 (f m).1

abbrev pub on_memory : Option Memory → Machine → Outcome (Unit {0})
on_memory none m = fault divide_error
on_memory (some mem) m = ok tt (record m { mem = mem })

module _ (rand : ℕ → ℕ) (memcpy : ℕ → ℕ → ℕ → Memory → Memory) where
  -- `randomize` has called `rand` once for each byte but the last.
  abbrev pub drawn : ℕ → ℕ
  drawn s1 = if s1 == 0 then 0 else size - 1

  unfoldable pub string_set_up : Cpu → ℕ → ℕ → Machine → Outcome (Unit {0})
  unfolding randomize corrupt
  string_set_up cpu s1 s2 = do
    λ m. on_memory (some (randomize rand s1 size m.mem)) m
    λ m. on_memory (corrupt (rand (drawn s1)) memcpy s2 s1 size m.mem) m
    _ ← process_specific_init cpu
    certain (qsetbndl 1 s1)
    certain (qsetbndl 2 s2)

unfoldable pub string_tear_down : (ℕ → Memory → Memory) → Cpu → ℕ → ℕ → Machine → Outcome (Unit {0})
string_tear_down free cpu s1 s2 = do
  λ m. on_memory (some (free s1 m.mem)) m
  λ m. on_memory (some (free s2 m.mem)) m
  _ ← process_specific_finish cpu
  ok tt

unfoldable pub bodies : ℕ → ℕ → List Benchmark → Machine → Outcome (Unit {0})
bodies s1 s2 [] = ok tt
bodies s1 s2 (b ∷ bs) = do certain (body s1 s2 b); bodies s1 s2 bs

-- Both sizes of a benchmark, and the benchmarks that the file registers.
abbrev at_both : (ℕ → Benchmark) → List Benchmark → List Benchmark
at_both b rest = b (4 * kb) ∷ b (2 * mb) ∷ rest

abbrev pub instances : List Benchmark
instances = at_both (compares plain) (
    at_both (compares hidden) (
      at_both (copies plain) (
        at_both (copies hidden) (
          at_both (moves plain) (
            at_both (moves hidden) (
              at_both (fills plain) (
                at_both (fills hidden)
                  (at_both (searches plain) (at_both (searches hidden) [])))))))))

-- As the framework calls them.
unfoldable pub string_run :
    (ℕ → ℕ)
    → (ℕ → ℕ → ℕ → Memory → Memory)
    → (ℕ → Memory → Memory)
    → Cpu
    → ℕ
    → ℕ
    → List Benchmark
    → Machine
    → Outcome (Unit {0})
string_run rand memcpy free cpu s1 s2 bs = do
  string_set_up rand memcpy cpu s1 s2
  bodies s1 s2 bs
  string_tear_down free cpu s1 s2
