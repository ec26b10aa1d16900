-- ===== src/Benchmark/Runs.antt =====
-- A whole run of `StringFixture`: `SetUp`, any of its benchmarks that fit the buffers as often as the framework
-- likes, `TearDown`. A benchmark of a larger size would read and write behind the buffers, and none is
-- registered.
use simplex.Base.{ℕ, ◌≤◌, ◌≡◌, ◌∙◌, refl, arith, true, List, sub64}
use simplex.Cpuid.{Cpu}
use simplex.Machine.{Machine}
use simplex.Machine.Bytes.{Memory}
use simplex.Runtime.Support.{check_mpx_support}
use simplex.Runtime.Xsave.{ok}
use simplex.Runtime.Outcomes.{configured}
use simplex.Runtime.Lifecycle.{IsHosted, finish_ok}
use simplex.SimplexString.Pointers.{AreBytes}
use simplex.Benchmark.{IsMemcpy}
use simplex.Benchmark.Filled.{written-IsHosted}
use simplex.Benchmark.Alive.{IsAlive, IsCleared, configured-IsCleared}
use simplex.Benchmark.Bodies.{Benchmark}
use simplex.Benchmark.Fixtures.{size, string_tear_down, string_run}
use simplex.Benchmark.Spared.{IsOutside, IsPointing}
use simplex.Benchmark.Footprint.{AllFit, bodies-Stays}
use simplex.Benchmark.Prepared.{AreBuffers, then_ok, string_set_up-Prepares}

-- What the C library documents of `free`, called on the pointer `a`: it leaves every object but the one at
-- `a` as it is. `Held` is where the others are.
pub record IsFree (Held : ℕ → Type 0) (free : ℕ → Memory → Memory) (a : ℕ) : Type 0 where
  pub bytes : (mem : Memory) → AreBytes mem → AreBytes (free a mem)
  pub spares : (mem : Memory) (x : ℕ) → Held x → free a mem x ≡ mem x

module _ {Held : ℕ → Type 0} {free : ℕ → Memory → Memory} {s1 s2 : ℕ} (frees1 : IsFree Held free s1)
    (frees2 : IsFree Held free s2) (cpu : Cpu) (supported : check_mpx_support cpu ≡ true) where
  -- A tear-down that ends, and what it leaves.
  record TornDown (m : Machine) : Type 0 where
    final : Machine
    ends : string_tear_down free cpu s1 s2 m ≡ ok tt final
    cleared : IsCleared final
    beside : (x : ℕ) → Held x → final.mem x ≡ m.mem x

  string_tear_down-TornDown : {m : Machine} → IsAlive m → TornDown m
  unfolding string_tear_down
  string_tear_down-TornDown {m} a =
      let mem = free s2 (free s1 m.mem) in
      let h =
        written-IsHosted a.hosted mem
          (frees2.bytes _ (frees1.bytes m.mem a.hosted.machine.bytes)) in
      record {
        final = configured 0 (record m { mem = mem });
        ends = then_ok _ (finish_ok cpu supported h) refl;
        cleared = configured-IsCleared h;
        beside = λ x l. frees2.spares (free s1 m.mem) x l ∙ frees1.spares m.mem x l;
      }

  -- With a `memcpy` as the C library documents it, which leaves bytes, with a `free` that leaves bytes and
  -- the objects that it is not given, on a processor that passes the check and a machine of 64-bit
  -- registers and bytes whose operating system has enabled XSAVE with the two MPX components, and with two
  -- buffers from `malloc` that lie apart and clear of the stack slot: `SetUp`, any sequence of benchmarks
  -- of at most 4 MB, and `TearDown` end without a fault, with MPX off and no pointer left in a bounds
  -- register; and outside the two buffers and the 16 bytes at -0x80(%rsp) no byte of an object that `free`
  -- is to leave has changed.
  pub string_run-Completes :
      (rand : ℕ → ℕ) (memcpy : ℕ → ℕ → ℕ → Memory → Memory)
      → IsMemcpy memcpy
      → ((d s len : ℕ) (mem : Memory) → AreBytes mem → AreBytes (memcpy d s len mem))
      → {m : Machine} → AreBuffers s1 s2 m.rsp
      → IsHosted m
      → (bs : List Benchmark) → AllFit bs
      → (final : Machine) × (string_run rand memcpy free cpu s1 s2 bs m ≡ ok tt final)
        × IsCleared final
        × ((x : ℕ) → IsOutside s1 m.rsp x → size ≤ sub64 x s2 → Held x → final.mem x ≡ m.mem x)
  unfolding string_run
  string_run-Completes rand memcpy documented keeps {m} b h bs small =
      let s = string_set_up-Prepares rand memcpy documented keeps cpu supported s1 s2 b h in
      let pointing : IsPointing s1 m.rsp s.final = record {
        alive = record { hosted = s.prepared.hosted; on = s.prepared.ready.on };
        rsp = s.prepared.stack;
        pointer = s.prepared.first;
      } in
      let (after, ends, stays) = bodies-Stays (omega (arith, b.first_fits)) s2 bs small pointing in
      let t = string_tear_down-TornDown stays.pointing.alive in
      (
        t.final,
        then_ok _ s.ends (then_ok (λ _. string_tear_down free cpu s1 s2) ends t.ends),
        t.cleared,
        λ x o second l. t.beside x l ∙ stays.mem x o ∙ s.beside x o.word o.buffer second,
      )
