-- ===== src/Benchmark/Comparison.antt =====
-- The benchmarks of `StringFixture` on what its `SetUp` prepares.
use native.Mathlib.Decide.{dec_lt}
use simplex.Base.{ℕ, ◌+◌, ◌-◌, ◌/◌, ◌≤◌, ◌<◌, ◌≡◌, ◌≢◌, ◌↔◌, refl, ap, sym, ◌∙◌, arith, add64, true}
use simplex.Cpuid.{Cpu}
use simplex.Machine.{Machine, bnd1, bnd2}
use simplex.Machine.Bytes.{Memory}
use simplex.Bounds.Frame.{IsReady, Keeps, Keeps-with_bound, Keeps-trans, Keeps-IsReady}
use simplex.Bounds.Mutators.{qsetbndl}
use simplex.Bounds.Writes.{with_bound, qsetbndl_lem}
use simplex.Runtime.Support.{check_mpx_support}
use simplex.Runtime.Xsave.{ok}
use simplex.Runtime.Lifecycle.{IsHosted}
use simplex.SimplexString.Libgcc.{pos, libgcc_memcmp, libgcc_memcpy, libgcc_memset, libgcc_memchr}
use simplex.SimplexString.Scans.{
  absent, bytes_at, compare_bytes, libgcc_memcmp_lem, libgcc_memchr_lem,
}
use simplex.SimplexString.Hidden.{
  simplex_memcmp, simplex_memcpy, simplex_memmove, simplex_memset, simplex_memchr,
}
use simplex.SimplexString.Pointers.{AreBytes, IsClear}
use simplex.Benchmark.{random_string, IsMemcpy}
use simplex.Benchmark.Fixtures.{size, string_set_up}
use simplex.Benchmark.Bodies.{inner, simplex_memmove_benchmark, libgcc_memmove_benchmark}
use simplex.Benchmark.Rivals.{
  Alike, memcmp_alike, memchr_alike, memset_alike, memcpy_alike, memmove_alike, compare_same,
  compare_differs, FirstAt_unique,
}
use simplex.Benchmark.Prepared.{AreBuffers, IsPrepared, inverted, string_set_up-Prepares}

-- The five pairs of benchmarks of `sz` bytes, on a machine on which byte `k` differs.
pub record Compared (k s1 s2 sz : ℕ) (m : Machine) : Type 0 where
  pub memcmp : (simplex_memcmp sz m).0 ≡ libgcc_memcmp s1 s2 sz m.mem
  pub memcmp_finds : ((simplex_memcmp sz m).0 ≢ pos 0) ↔ (k < sz)
  pub memcpy : Alike m (simplex_memcpy sz m) (libgcc_memcpy s1 s2 sz m.mem)
  pub memmove : Alike m (simplex_memmove_benchmark s1 sz m) (libgcc_memmove_benchmark s1 sz m.mem)
  pub memset : Alike m (simplex_memset 0x43 sz m) (libgcc_memset s1 0x43 sz m.mem)
  pub memchr : (simplex_memchr 0 sz m).0 ≡ libgcc_memchr s1 0 sz m.mem
  pub memchr_none : sz < size → (simplex_memchr 0 sz m).0 ≡ 0

random_string-lt : (rand : ℕ → ℕ) (i : ℕ) → random_string rand size i < 128
random_string-lt rand i = ground arith

random_string-positive : (rand : ℕ → ℕ) (i : ℕ) → i < size - 1 → random_string rand size i ≢ 0
random_string-positive rand i l = ground arith

module _ {rand : ℕ → ℕ} {k s1 s2 rsp : ℕ} {m : Machine} (p : IsPrepared rand k s1 s2 rsp m)
    (b : AreBuffers s1 s2 rsp) (sz : ℕ) (small : sz ≤ size) where
  clear1 : IsClear bnd1 sz m
  clear1 = λ i l. rw (p.first, p.stack) (b.first_clear i (omega arith))

  clear2 : IsClear bnd2 sz m
  clear2 = λ i l. rw (p.second, p.stack) (b.second_clear i (omega arith))

  memcmp_same : (simplex_memcmp sz m).0 ≡ libgcc_memcmp s1 s2 sz m.mem
  memcmp_same = rw (← p.first, ← p.second) (memcmp_alike sz p.ready clear1 clear2)

  memchr_same : (simplex_memchr 0 sz m).0 ≡ libgcc_memchr s1 0 sz m.mem
  memchr_same = rw (← p.first) (memchr_alike sz p.ready 0 clear1)

  unchanged : (i : ℕ) → i < sz → i ≢ k → m.mem (add64 s1 i) ≡ m.mem (add64 s2 i)
  unchanged i l other = p.string i (omega arith) ∙ sym (p.copy i (omega arith) ∙ ground arith)

  changed : k < sz → m.mem (add64 s1 k) ≢ m.mem (add64 s2 k)
  changed l e = omega (arith, e, p.string k (omega arith), flipped, random_string-lt rand k)
    where
      flipped : m.mem (add64 s2 k) ≡ 255 - random_string rand size k
      flipped = p.copy k (omega arith) ∙ ground arith

  memcmp_lem :
      libgcc_memcmp s1 s2 sz m.mem ≡ compare_bytes (bytes_at sz s1 m.mem) (bytes_at sz s2 m.mem)
  memcmp_lem =
      libgcc_memcmp_lem s1 s2 sz m.mem (omega (arith, b.first_fits)) (omega (arith, b.second_fits))

  memcmp_finds : ((simplex_memcmp sz m).0 ≢ pos 0) ↔ (k < sz)
  memcmp_finds = (
    λ h. elim (dec_lt k sz) [
      | yes l ↦ l
      | no more ↦ absurd (
          h (
            memcmp_same
            ∙ memcmp_lem
            ∙ compare_same sz s1 s2 m.mem (omega (arith, b.first_fits))
                (omega (arith, b.second_fits)) (λ i l. unchanged i l (omega arith))))
    ],
    λ l e.
        compare_differs sz k s1 s2 m.mem (omega (arith, b.first_fits))
          (omega (arith, b.second_fits)) l (changed l) (sym memcmp_lem ∙ sym memcmp_same ∙ e),
  )

  memchr_none : sz < size → (simplex_memchr 0 sz m).0 ≡ 0
  memchr_none less =
      memchr_same
      ∙ FirstAt_unique (libgcc_memchr_lem s1 0 sz m.mem (omega (arith, b.first_fits))) (
          absent sz (λ i l e.
            random_string-positive rand i (omega arith) (sym (p.string i (omega arith)) ∙ e)))

  memset_same : Alike m (simplex_memset 0x43 sz m) (libgcc_memset s1 0x43 sz m.mem)
  memset_same = rw (← p.first) (memset_alike sz p.ready 0x43 (omega arith))

  memcpy_same : Alike m (simplex_memcpy sz m) (libgcc_memcpy s1 s2 sz m.mem)
  memcpy_same =
      rw (← p.first, ← p.second)
        (memcpy_alike sz p.ready (omega arith)
          (omega (arith, p.first, b.first_fits), omega (arith, p.second, b.second_fits)) clear2
          (omega (arith, p.first, p.second, b.apart)))

  abbrev redirected : Machine
  redirected = with_bound bnd2 (inner s1 sz) (inner s1 sz) (with_bound bnd1 s1 s1 m)

  redirected_lem :
      ((redirected.bnds bnd1).lb ≡ s1)
      × ((redirected.bnds bnd2).lb ≡ inner s1 sz)
      × (redirected.mem ≡ m.mem)
      × (redirected.rsp ≡ m.rsp)
  unfolding with_bound
  redirected_lem = (refl, refl, refl, refl)

  once-Keeps : Keeps m (with_bound bnd1 s1 s1 m)
  once-Keeps = Keeps-with_bound bnd1 s1 s1 m (omega (arith, b.first_fits))

  redirected-IsReady : IsReady redirected
  redirected-IsReady =
      Keeps-IsReady
        (Keeps-trans once-Keeps (
          Keeps-with_bound bnd2 (inner s1 sz) (inner s1 sz) (with_bound bnd1 s1 s1 m)
            (omega arith)))
        p.ready

  once-IsReady : IsReady (with_bound bnd1 s1 s1 m)
  once-IsReady = Keeps-IsReady once-Keeps p.ready

  benchmark_lem : simplex_memmove_benchmark s1 sz m ≡ simplex_memmove (sz / 2) redirected
  unfolding simplex_memmove_benchmark
  benchmark_lem =
      ap (λ (r : Unit {0} × Machine). simplex_memmove (sz / 2) (qsetbndl 2 (inner s1 sz) r.1).1)
        (qsetbndl_lem bnd1 m p.ready.on s1 (omega (arith, b.first_fits)))
      ∙ ap (λ (r : Unit {0} × Machine). simplex_memmove (sz / 2) r.1)
          (qsetbndl_lem bnd2 (with_bound bnd1 s1 s1 m) once-IsReady.on (inner s1 sz) (omega arith))

  IsClear-inner : IsClear bnd2 (sz / 2) redirected
  unfolding with_bound
  IsClear-inner i l =
      let j = sz / 4 + 1 + i in
      let same : add64 (inner s1 sz) i ≡ add64 s1 j = omega (arith, b.first_fits) in
      rw (same, p.stack) (b.first_clear j (omega arith))

  memmove_same : Alike m (simplex_memmove_benchmark s1 sz m) (libgcc_memmove_benchmark s1 sz m.mem)
  unfolding libgcc_memmove_benchmark with_bound
  memmove_same =
      let a =
        memmove_alike (sz / 2) redirected-IsReady (omega arith)
          (omega (arith, b.first_fits), omega (arith, b.first_fits)) IsClear-inner in
      record {
        returned = ap (λ (r : ℕ × Machine). r.0) benchmark_lem ∙ a.returned;
        memory =
            λ x hx apart. ap (λ (r : ℕ × Machine). r.1.mem x) benchmark_lem ∙ a.memory x hx apart;
      }

  prepared-Compared : Compared k s1 s2 sz m
  prepared-Compared = record {
    memcmp = memcmp_same;
    memcmp_finds = memcmp_finds;
    memcpy = memcpy_same;
    memmove = memmove_same;
    memset = memset_same;
    memchr = memchr_same;
    memchr_none = memchr_none;
  }

-- With a `memcpy` as the C library documents it, which leaves bytes, on a processor that passes the check
-- and a machine of 64-bit registers and bytes whose operating system has enabled XSAVE with the two MPX
-- components, and with two buffers from `malloc` that lie apart and clear of the stack slot: `SetUp` ends
-- without a fault on a machine of the same kind, with MPX on, the stack pointer as it was, the two pointers
-- in BND1 and BND2, a random string at the first, and at the second its copy with one byte inverted. From
-- there each `simplex_` benchmark of at most 4 MB returns what its `libgcc_` counterpart returns; the two
-- that copy and the one that fills leave the same memory outside the stack slot; that of `memcmp` finds a
-- difference exactly if the inverted byte is among those compared; and that of `memchr` finds no 0 in less
-- than 4 MB.
pub string_fixture-Compared :
    (rand : ℕ → ℕ) (memcpy : ℕ → ℕ → ℕ → Memory → Memory)
    → IsMemcpy memcpy
    → ((d s len : ℕ) (mem : Memory) → AreBytes mem → AreBytes (memcpy d s len mem))
    → (cpu : Cpu) → check_mpx_support cpu ≡ true
    → (s1 s2 : ℕ) {m : Machine} → AreBuffers s1 s2 m.rsp
    → IsHosted m
    → (sz : ℕ) → sz ≤ size
    → (final : Machine) × (string_set_up rand memcpy cpu s1 s2 m ≡ ok tt final)
      × IsPrepared rand (inverted rand) s1 s2 m.rsp final
      × Compared (inverted rand) s1 s2 sz final
string_fixture-Compared rand memcpy documented bytes cpu supported s1 s2 b h sz small =
    let s = string_set_up-Prepares rand memcpy documented bytes cpu supported s1 s2 b h in
    (s.final, s.ends, s.prepared, prepared-Compared s.prepared b sz small)
