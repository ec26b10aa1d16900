-- ===== src/Benchmark/Footprint.antt =====
-- Where the benchmarks of `StringFixture` write.
use simplex.Base.{ℕ, true, ◌/◌, ◌≤◌, ◌<◌, ◌≡◌, refl, ap, ◌∙◌, arith, List, [], ◌∷◌, add64, IsWord}
use simplex.Machine.{bnd1, bnd2, Machine}
use simplex.Machine.Bytes.{Memory}
use simplex.Bounds.Accessors.{qgetbndl}
use simplex.Cpuid.{Cpu}
use simplex.Runtime.Support.{check_mpx_support}
use simplex.Runtime.Lifecycle.{IsHosted}
use simplex.Runtime.Xsave.{ok}
use simplex.Benchmark.{IsMemcpy}
use simplex.Benchmark.Prepared.{AreBuffers, string_set_up-Prepares}
use simplex.SimplexString.Libgcc.{
  libgcc_memcpy, libgcc_memmove, libgcc_memset, forward_loop, move, fill_loop,
}
use simplex.SimplexString.Hidden.{
  simplex_memcmp, simplex_memcpy, simplex_memmove, simplex_memset, simplex_memchr,
}
use simplex.SimplexString.Pointers.{AreBytes, forward_loop-AreBytes, move-AreBytes}
use simplex.SimplexString.Searches.{fill_loop-AreBytes}
use simplex.SimplexString.Footprint.{forward_loop-outside, fill_loop-outside, move-outside}
use simplex.Benchmark.Bodies.{
  inner, simplex_memmove_benchmark, libgcc_memmove_benchmark, Benchmark, hidden, plain, compares,
  copies, moves, fills, searches, body,
}
use simplex.Benchmark.Fixtures.{size, string_set_up, bodies}
use simplex.Benchmark.Spared.{
  IsOutside, IsPointing, Stays, Stays-refl, Stays-trans, fetched-Stays, first_fetched,
  set_first-Stays, set_second-Stays, written-Stays, Spares, plain-Stays, copy-Stays,
}

abbrev pub size_of : Benchmark → ℕ
size_of (compares v sz) = sz
size_of (copies v sz) = sz
size_of (moves v sz) = sz
size_of (fills v sz) = sz
size_of (searches v sz) = sz

abbrev pub AllFit : List Benchmark → Type 0
AllFit [] = Unit
AllFit (b ∷ bs) = (size_of b ≤ size) × AllFit bs

module _ {s1 top : ℕ} (fits : IsWord s1) where
  forward-Spares : (sz : ℕ) → sz ≤ size → Spares s1 top (λ d s. forward_loop sz d s)
  forward-Spares sz l = record {
    bytes = λ d s mem h. forward_loop-AreBytes sz d s mem h;
    away = λ s mem x o. forward_loop-outside sz s1 s mem x fits o.word (omega (arith, o.buffer));
  }

  move-Spares : (sz : ℕ) → sz ≤ size → Spares s1 top (λ d s. move d s sz)
  move-Spares sz l = record {
    bytes = λ d s mem h. move-AreBytes d s sz mem h;
    away = λ s mem x o. move-outside sz s1 s mem x fits o.word (omega (arith, o.buffer));
  }

  fill-Spares : (sz : ℕ) → sz ≤ size → Spares s1 top (λ d s. fill_loop sz d 0x43)
  fill-Spares sz l = record {
    bytes = λ d s mem h. fill_loop-AreBytes sz d 0x43 mem h;
    away = λ s mem x o. fill_loop-outside sz s1 0x43 mem x fits o.word (omega (arith, o.buffer));
  }

  body-Stays :
      (s2 : ℕ) (b : Benchmark)
      → size_of b ≤ size
      → {m : Machine} → IsPointing s1 top m
      → Stays s1 top m (body s1 s2 b m).1
  unfolding body
  body-Stays s2 (compares hidden sz) l p =
      unfold simplex_memcmp in
      (let a = fetched-Stays p bnd1 in Stays-trans a (fetched-Stays a.pointing bnd2))
  body-Stays s2 (compares plain sz) l p = Stays-refl p
  body-Stays s2 (copies hidden sz) l p = unfold simplex_memcpy in copy-Stays (forward-Spares sz l) p
  body-Stays s2 (copies plain sz) l p =
      unfold libgcc_memcpy in plain-Stays (forward-Spares sz l) s2 p
  body-Stays s2 (moves hidden sz) l p =
      unfold simplex_memmove_benchmark in
      unfold simplex_memmove in
      (let a = set_first-Stays p fits in
        let b = set_second-Stays a.pointing (inner s1 sz) (omega arith) in
        Stays-trans (Stays-trans a b) (copy-Stays (move-Spares (sz / 2) (omega arith)) b.pointing))
  body-Stays s2 (moves plain sz) l p =
      unfold libgcc_memmove_benchmark in
      unfold libgcc_memmove in plain-Stays (move-Spares (sz / 2) (omega arith)) (inner s1 sz) p
  body-Stays s2 (fills hidden sz) l {m} p =
      unfold simplex_memset in
      (let f = fill-Spares sz l in
        let r1 = qgetbndl 1 m in
        let a = fetched-Stays p bnd1 in
        let c =
          written-Stays a.pointing (fill_loop sz r1.0 0x43 r1.1.mem)
            (f.bytes r1.0 s2 r1.1.mem a.pointing.alive.hosted.machine.bytes)
            (λ x o.
              ap (λ (d : ℕ). fill_loop sz d 0x43 r1.1.mem x) (first_fetched p)
              ∙ f.away s2 r1.1.mem x o) in
        Stays-trans (Stays-trans a c) (fetched-Stays c.pointing bnd1))
  body-Stays s2 (fills plain sz) l p = unfold libgcc_memset in plain-Stays (fill-Spares sz l) s2 p
  body-Stays s2 (searches hidden sz) l p = unfold simplex_memchr in fetched-Stays p bnd1
  body-Stays s2 (searches plain sz) l p = Stays-refl p

  pub bodies-Stays :
      (s2 : ℕ) (bs : List Benchmark)
      → AllFit bs
      → {m : Machine} → IsPointing s1 top m
      → (final : Machine) × (bodies s1 s2 bs m ≡ ok tt final) × Stays s1 top m final
  unfolding bodies
  bodies-Stays s2 [] h {m} p = (m, refl, Stays-refl p)
  bodies-Stays s2 (b ∷ bs) h p =
      let a = body-Stays s2 b h.0 p in
      let (final, ends, rest) = bodies-Stays s2 bs h.1 a.pointing in
      (final, ends, Stays-trans a rest)

-- With a `memcpy` as the C library documents it, which leaves bytes, on a processor that passes the check and
-- a machine of 64-bit registers and bytes whose operating system has enabled XSAVE with the two MPX
-- components, and with two buffers from `malloc` that lie apart and clear of the stack slot: `SetUp` ends
-- without a fault, and so does any sequence of benchmarks of at most 4 MB behind it, which changes no byte
-- outside the first buffer and the 16 bytes at -0x80(%rsp), so none of the second buffer, and leaves the
-- pointer to the first one in BND1.
pub string_set_up-bodies :
    (rand : ℕ → ℕ) (memcpy : ℕ → ℕ → ℕ → Memory → Memory)
    → IsMemcpy memcpy
    → ((d s len : ℕ) (mem : Memory) → AreBytes mem → AreBytes (memcpy d s len mem))
    → (cpu : Cpu) → check_mpx_support cpu ≡ true
    → (s1 s2 : ℕ) {m : Machine} → AreBuffers s1 s2 m.rsp
    → IsHosted m
    → (bs : List Benchmark) → AllFit bs
    → (prepared : Machine) × (final : Machine) × (string_set_up rand memcpy cpu s1 s2 m
        ≡ ok tt prepared)
      × (bodies s1 s2 bs prepared ≡ ok tt final)
      × ((x : ℕ) → IsOutside s1 m.rsp x → final.mem x ≡ prepared.mem x)
      × ((i : ℕ) → i < size → final.mem (add64 s2 i) ≡ prepared.mem (add64 s2 i))
      × ((final.bnds bnd1).lb ≡ s1)
string_set_up-bodies rand memcpy documented keeps cpu supported s1 s2 {m} b h bs small =
    let s = string_set_up-Prepares rand memcpy documented keeps cpu supported s1 s2 b h in
    let pointing : IsPointing s1 m.rsp s.final = record {
      alive = record { hosted = s.prepared.hosted; on = s.prepared.ready.on };
      rsp = s.prepared.stack;
      pointer = s.prepared.first;
    } in
    let (final, ends, stays) = bodies-Stays (omega (arith, b.first_fits)) s2 bs small pointing in
    (
      s.final,
      final,
      s.ends,
      ends,
      stays.mem,
      λ i l. stays.mem (add64 s2 i) (record {
        word = omega arith;
        buffer = omega (arith, b.apart, b.first_fits, b.second_fits);
        stack = b.second_clear i l;
      }),
      stays.pointing.pointer,
    )
