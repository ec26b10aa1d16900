-- ===== src/Benchmark/Traversals.antt =====
-- Runs of `TraversalFixture` of simplex/eval/benchmark/benchmark.cpp end without a fault.
use simplex.Base.{ℕ, ◌≤◌, ◌≡◌, refl, ap, ◌∙◌, true, Option, ◌%◌, ◌==◌, some, List, [], ◌∷◌}
use simplex.Cpuid.{Cpu}
use simplex.Machine.{BndFile, Machine, mpx_on}
use simplex.Machine.Bytes.{Memory}
use simplex.Runtime.Support.{check_mpx_support}
use simplex.Runtime.Xsave.{ok, bit}
use simplex.Runtime.Outcomes.{configured, configuring_ok, process_specific_finish_lem}
use simplex.Runtime.Lifecycle.{IsHosted, mpx_on-configured, init_ok}
use simplex.Traversal.{Gpr, Core}
use simplex.Traversal.Frame.{Rest, rest_of}
use simplex.Traversal.Outcomes.{IsCore, rounds, Traverses}
use simplex.Traversal.Gp.{gptraverse-Traverses}
use simplex.Traversal.Mpx.{mpxtraverse-Traverses}
use simplex.Benchmark.{randomize}
use simplex.Benchmark.Filled.{randomize-AreBytes, written-IsHosted}
use simplex.Benchmark.Alive.{IsCleared}
use simplex.Benchmark.Prepared.{then_ok}
use simplex.Benchmark.Fixtures.{size}
use simplex.Benchmark.Traverses.{traversal_set_up, called, gp_benchmark, mpx_benchmark}
use simplex.Benchmark.TraversalFixture.{
  Traverse, gp_traverse, mpx_traverse, size_of, gpr_of, machine_then, traverse, traverses,
  traversal_tear_down, torn_down, prepared_then, traversal_run,
}

-- The registers hold words at the call, and the fuel is enough for the rounds.
pub record IsServed (fuel member : ℕ) (m : Machine) (b : Traverse) : Type 0 where
  pub core : IsCore (called member (size_of b) (gpr_of b) m)
  pub enough : rounds (size_of b) ≤ fuel

abbrev pub AllServed : ℕ → ℕ → Machine → List Traverse → Type 0
AllServed fuel member m [] = Unit
AllServed fuel member m (b ∷ bs) = IsServed fuel member m b × AllServed fuel member m bs

record Stays (m m' : Machine) : Type 0 where
  rsp : m'.rsp ≡ m.rsp
  rest : rest_of m' ≡ rest_of m

record Leaves (m : Machine) (r : Option Machine) : Type 0 where
  final : Machine
  ends : r ≡ some final
  stays : Stays m final

Stays-mpx_on : {start m : Machine} → mpx_on start ≡ true → Stays start m → mpx_on m ≡ true
unfolding mpx_on
Stays-mpx_on on s = ap (λ (r : Rest). r.0 % 2 == 1) s.rest ∙ on

spared :
    {start : Machine} {depth : ℕ} {g : Gpr} {b : BndFile} {c : Core} {r : Option Core}
    → Stays start c.machine
    → Traverses depth g b c r
    → (c' : Core) × (r ≡ some c') × Stays start c'.machine
spared s t = (t.final, t.ends, record { rsp = t.spares.rsp ∙ s.rsp; rest = t.spares.rest ∙ s.rest })

module _ (fuel member : ℕ) (origin : Machine) {start : Machine} (same : start.rsp ≡ origin.rsp)
    (on : mpx_on start ≡ true) where
  Stays-IsCore :
      (b : Traverse) {m : Machine}
      → IsServed fuel member origin b
      → Stays start m
      → IsCore (called member (size_of b) (gpr_of b) m)
  Stays-IsCore b h s = record {
    rax = h.core.rax;
    rcx = h.core.rcx;
    rdx = h.core.rdx;
    rsi = h.core.rsi;
    rdi = h.core.rdi;
    rbp = h.core.rbp;
    r8 = h.core.r8;
    r9 = h.core.r9;
    rsp = rw (s.rsp, same) h.core.rsp;
  }

  traverse-ends :
      (b : Traverse) {m : Machine}
      → IsServed fuel member origin b
      → Stays start m
      → (c : Core) × (traverse fuel member b m ≡ some c) × Stays start c.machine
  unfolding traverse gp_benchmark mpx_benchmark
  traverse-ends (gp_traverse sz g) {m} h s =
      let ok = Stays-IsCore (gp_traverse sz g) h s in
      spared s (gptraverse-Traverses (called member sz g m) ok fuel h.enough)
  traverse-ends (mpx_traverse sz g) {m} h s =
      let ok = Stays-IsCore (mpx_traverse sz g) h s in
      spared s (mpxtraverse-Traverses (called member sz g m) ok (Stays-mpx_on on s) fuel h.enough)

  traverses-Leaves :
      (bs : List Traverse) {m : Machine}
      → AllServed fuel member origin bs
      → Stays start m
      → Leaves start (traverses fuel member bs m)
  unfolding traverses
  traverses-Leaves [] {m} h s = record { final = m; ends = refl; stays = s }
  traverses-Leaves (b ∷ bs) {m} h s =
      let (c, ends, s') = traverse-ends b h.0 s in
      let rest = traverses-Leaves bs h.1 s' in
      record {
        final = rest.final;
        ends = ap (λ o. machine_then o (traverses fuel member bs)) ends ∙ rest.ends;
        stays = rest.stays;
      }

module _ (free : ℕ → Memory → Memory) (cpu : Cpu) (supported : check_mpx_support cpu ≡ true)
    (buffer : ℕ) where
  traversal_tear_down-ends :
      {m m' : Machine}
      → IsHosted m
      → Stays (configured 3 m) m'
      → (final : Machine) × (traversal_tear_down free cpu buffer m' ≡ ok tt final) × IsCleared final
  unfolding traversal_tear_down mpx_on
  traversal_tear_down-ends {m} {m'} h s =
      let freed = record m' { mem = free buffer m'.mem } in
      let os : m'.osxsave ≡ true = ap (λ (r : Rest). r.3) s.rest ∙ h.os in
      let xcr0 : m'.xcr0 ≡ m.xcr0 = ap (λ (r : Rest). r.2) s.rest in
      (
        configured 0 freed,
        then_ok {a = true} _
            (process_specific_finish_lem cpu freed
              ∙ rw supported (configuring_ok true 0 freed os (ap (bit 4) xcr0 ∙ h.has_bndcsr)))
            refl,
        record { off = refl; bnds = rw (ap (bit 3) xcr0 ∙ h.has_bndregs) },
      )

  -- On a processor that passes the check and a machine of 64-bit registers and bytes whose operating system
  -- has enabled XSAVE with the two MPX components, and with fuel for the rounds of every benchmark and words
  -- in the registers at its call: `SetUp`, any sequence of the two traversals of any sizes, and `TearDown`
  -- end without a fault, with MPX off and no pointer left in a bounds register.
  pub traversal_run-Completes :
      (rand : ℕ → ℕ) (fuel member : ℕ) {m : Machine}
      → IsHosted m
      → (bs : List Traverse) → AllServed fuel member m bs
      → (final : Machine) × (traversal_run rand free cpu buffer fuel member bs m
          ≡ some (ok tt final))
        × IsCleared final
  unfolding traversal_run traversal_set_up
  traversal_run-Completes rand fuel member {m} h bs served =
      let mem = randomize rand buffer size m.mem in
      let h' = written-IsHosted h mem (randomize-AreBytes rand buffer size m.mem h.machine.bytes) in
      let started = configured 3 (record m { mem = mem }) in
      let b =
        traverses-Leaves fuel member m refl (mpx_on-configured 3 (record m { mem = mem })) bs served
          (record { rsp = refl; rest = refl }) in
      let (final, ends, cleared) = traversal_tear_down-ends h' b.stays in
      let prepared : traversal_set_up rand cpu buffer m ≡ ok tt started =
        then_ok _ (init_ok cpu supported h') refl in
      let tear = traversal_tear_down free cpu buffer in
      (
        final,
        ap (λ o. prepared_then o (λ m'. torn_down (traverses fuel member bs m') tear)) prepared
            ∙ ap (λ o. torn_down o tear) b.ends
            ∙ ap some ends,
        cleared,
      )
