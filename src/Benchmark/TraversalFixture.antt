-- ===== src/Benchmark/TraversalFixture.antt =====
-- A whole run of `TraversalFixture` of simplex/eval/benchmark/benchmark.cpp: `SetUp`, its two benchmarks on
-- any sizes as often as the framework likes, `TearDown`.
use simplex.Base.{◌*◌, ℕ, Option, none, some, List, [], ◌∷◌}
use simplex.Cpuid.{Cpu}
use simplex.Machine.{Machine}
use simplex.Machine.Bytes.{Memory}
use simplex.Runtime.Xsave.{Outcome, ok, fault, ◌>>=◌, ◌>>◌}
use simplex.Runtime.Process.{process_specific_finish}
use simplex.Traversal.{Gpr, Core}
use simplex.Benchmark.{kb, mb}
use simplex.Benchmark.Fixtures.{on_memory}
use simplex.Benchmark.Traverses.{traversal_set_up, gp_benchmark, mpx_benchmark}

-- A benchmark, its size, and what the registers hold besides the arguments.
pub data Traverse : Type 0 where
  gp_traverse mpx_traverse : ℕ → Gpr → Traverse

abbrev pub size_of : Traverse → ℕ
size_of (gp_traverse sz g) = sz
size_of (mpx_traverse sz g) = sz

abbrev pub gpr_of : Traverse → Gpr
gpr_of (gp_traverse sz g) = g
gpr_of (mpx_traverse sz g) = g

-- The benchmarks that the file registers.
abbrev pub traversal_instances : Gpr → List Traverse
traversal_instances g =
    gp_traverse (4 * kb) g
    ∷ gp_traverse (2 * mb) g
    ∷ mpx_traverse (4 * kb) g
    ∷ mpx_traverse (2 * mb) g
    ∷ []

abbrev pub machine_then : Option Core → (Machine → Option Machine) → Option Machine
machine_then none k = none
machine_then (some c) k = k c.machine

module _ (fuel member : ℕ) where
  unfoldable pub traverse : Traverse → Machine → Option Core
  unfolding gp_benchmark mpx_benchmark
  traverse (gp_traverse sz g) = gp_benchmark fuel member sz g
  traverse (mpx_traverse sz g) = mpx_benchmark fuel member sz g

  -- `none` is a loop that goes on for longer than `fuel` rounds.
  unfoldable pub traverses : List Traverse → Machine → Option Machine
  unfolding traverse
  traverses [] m = some m
  traverses (b ∷ bs) m = machine_then (traverse b m) (traverses bs)

unfoldable pub traversal_tear_down : (ℕ → Memory → Memory) → Cpu → ℕ → Machine → Outcome (Unit {0})
traversal_tear_down free cpu buffer = do
  λ m. on_memory (some (free buffer m.mem)) m
  _ ← process_specific_finish cpu
  ok tt

abbrev pub torn_down : Option Machine → (Machine → Outcome (Unit {0})) → Option (Outcome (Unit {0}))
torn_down none k = none
torn_down (some m) k = some (k m)

abbrev pub prepared_then :
    Outcome (Unit {0}) → (Machine → Option (Outcome (Unit {0}))) → Option (Outcome (Unit {0}))
prepared_then (ok t m) k = k m
prepared_then (fault e) k = some (fault e)

unfoldable pub traversal_run :
    (ℕ → ℕ)
    → (ℕ → Memory → Memory)
    → Cpu
    → ℕ
    → ℕ
    → ℕ
    → List Traverse
    → Machine
    → Option (Outcome (Unit {0}))
unfolding traversal_set_up
traversal_run rand free cpu buffer fuel member bs m =
    prepared_then (traversal_set_up rand cpu buffer m)
      (λ m'. torn_down (traverses fuel member bs m') (traversal_tear_down free cpu buffer))
