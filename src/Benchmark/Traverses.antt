-- ===== src/Benchmark/Traverses.antt =====
-- `TraversalFixture` of simplex/eval/benchmark/benchmark.cpp: `SetUp` and its two benchmarks, which pass the
-- address of the member that holds the pointer to the buffer.
use simplex.Base.{
  ℕ, some, Option, List, [], ◌∷◌, ◌⊎◌, refl, ◌+◌, ◌^◌, ◌-◌, ◌≤◌, ◌<◌, ◌≡◌, arith, true, sub64,
}
use simplex.Cpuid.{Cpu}
use simplex.Machine.{Machine, mpx_on}
use simplex.Runtime.Support.{check_mpx_support}
use simplex.Runtime.Xsave.{Outcome, ok, ◌>>=◌, ◌>>◌}
use simplex.Runtime.Process.{process_specific_init}
use simplex.Runtime.Outcomes.{configured}
use simplex.Runtime.Lifecycle.{IsHosted, mpx_on-configured, init_ok}
use simplex.Traversal.{Gpr, Core, gptraverse, mpxtraverse}
use simplex.Traversal.Outcomes.{IsCore, rounds}
use simplex.Traversal.Together.{All, traversals_agree, traversals-Loads}
use simplex.Benchmark.{randomize}
use simplex.Benchmark.Filled.{randomize-AreBytes, written-IsHosted}
use simplex.Benchmark.Prepared.{then_ok}
use simplex.Benchmark.Fixtures.{size, on_memory}

unfoldable pub traversal_set_up : (ℕ → ℕ) → Cpu → ℕ → Machine → Outcome (Unit {0})
unfolding randomize
traversal_set_up rand cpu buffer = do
  λ m. on_memory (some (randomize rand buffer size m.mem)) m
  _ ← process_specific_init cpu
  ok tt

-- The registers at a call: the arguments in RDI and RSI, anything in the others.
abbrev pub called : ℕ → ℕ → Gpr → Machine → Core
called member sz g m = record { gpr = record g { rdi = member; rsi = sz }; machine = m; loads = [] }

unfoldable pub gp_benchmark : ℕ → ℕ → ℕ → Gpr → Machine → Option Core
gp_benchmark fuel member sz g m = gptraverse fuel (called member sz g m)

unfoldable pub mpx_benchmark : ℕ → ℕ → ℕ → Gpr → Machine → Option Core
mpx_benchmark fuel member sz g m = mpxtraverse fuel (called member sz g m)

-- An address outside the buffer.
abbrev pub Beside : ℕ → ℕ → Type 0
Beside buffer x = (x < buffer) ⊎ (buffer + size ≤ x)

-- What the two benchmarks do on a machine.
pub record Traversed (fuel buffer member sz : ℕ) (g : Gpr) (m : Machine) : Type 0 where
  pub gp : Core
  pub mpx : Core
  pub gp_ends : gp_benchmark fuel member sz g m ≡ some gp
  pub mpx_ends : mpx_benchmark fuel member sz g m ≡ some mpx
  pub same_loads : gp.loads ≡ mpx.loads
  pub beside : All (Beside buffer) gp.loads
  pub memory : (x : ℕ) → sub64 x m.rsp < 2 ^ 64 - 80 → gp.machine.mem x ≡ mpx.machine.mem x

All-map : {P Q : ℕ → Type 0} → ((x : ℕ) → P x → Q x) → (xs : List ℕ) → All P xs → All Q xs
All-map f [] h = tt
All-map f (x ∷ xs) h = (f x h.0, All-map f xs h.1)

module _ {fuel buffer member sz : ℕ} {g : Gpr} {m : Machine} (ok : IsCore (called member sz g m))
    (on : mpx_on m ≡ true) (big : 2 ≤ sz) (fits : member + sz ≤ 2 ^ 64)
    (apart : (member + sz ≤ buffer) ⊎ (buffer + size ≤ member)) (enough : rounds sz ≤ fuel) where
  called-Traversed : Traversed fuel buffer member sz g m
  unfolding gp_benchmark mpx_benchmark
  called-Traversed =
      let (gp, mpx, gp_ends, mpx_ends, same_loads, memory) =
        traversals_agree (called member sz g m) ok on fuel enough in
      let l =
        (traversals-Loads (called member sz g m) ok on big (omega arith) refl fuel enough).0 in
      let same : l.final ≡ gp = cc (l.ends, gp_ends) in
      record {
        gp = gp;
        mpx = mpx;
        gp_ends = gp_ends;
        mpx_ends = mpx_ends;
        same_loads = same_loads;
        beside = rw (← same) (All-map (λ x w. omega (arith, apart, w)) l.final.loads l.within);
        memory = memory;
      }

-- On a processor that passes the check and a machine of 64-bit registers and bytes whose operating system
-- has enabled XSAVE with the two MPX components, `SetUp` ends without a fault. With any words in the other
-- registers, with the address of a member whose next `sz` bytes end within memory and lie apart from the
-- buffer, with a size of at least 2 and with fuel for its rounds, both benchmarks then end, have loaded from
-- the same addresses in the same order, none of them in the buffer, and agree on all memory outside the 80
-- bytes below the stack pointer.
pub traversal_fixture-Traversed :
    (rand : ℕ → ℕ) (cpu : Cpu)
    → check_mpx_support cpu ≡ true
    → (fuel buffer member sz : ℕ) (g : Gpr) {m : Machine} → IsHosted m
    → IsCore (called member sz g m)
    → 2 ≤ sz
    → member + sz ≤ 2 ^ 64
    → (member + sz ≤ buffer) ⊎ (buffer + size ≤ member)
    → rounds sz ≤ fuel
    → (final : Machine) × (traversal_set_up rand cpu buffer m ≡ ok tt final)
      × Traversed fuel buffer member sz g final
unfolding traversal_set_up
traversal_fixture-Traversed rand cpu supported fuel buffer member sz g {m} h c big fits apart
      enough =
    let mem = randomize rand buffer size m.mem in
    let h' = written-IsHosted h mem (randomize-AreBytes rand buffer size m.mem h.machine.bytes) in
    let started = configured 3 (record m { mem = mem }) in
    let c' : IsCore (called member sz g started) = record {
      rax = c.rax;
      rcx = c.rcx;
      rdx = c.rdx;
      rsi = c.rsi;
      rdi = c.rdi;
      rbp = c.rbp;
      r8 = c.r8;
      r9 = c.r9;
      rsp = c.rsp;
    } in
    (
      started,
      then_ok _ (init_ok cpu supported h') refl,
      called-Traversed c' (mpx_on-configured 3 (record m { mem = mem })) big fits apart enough,
    )
