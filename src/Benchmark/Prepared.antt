-- ===== src/Benchmark/Prepared.antt =====
-- What `SetUp` of `StringFixture` prepares, and what its benchmarks find there.
use simplex.Base.{
  ℕ, some, ◌+◌, ◌-◌, ◌%◌, ◌^◌, ◌≤◌, ◌<◌, ◌≡◌, ◌≢◌, ◌⊎◌, refl, ap, ◌∙◌, arith, true, ◌==◌,
  if◌then◌else◌, add64, sub64, IsWord,
}
use simplex.Cpuid.{Cpu}
use simplex.Machine.{Machine, mpx_on, bnd1, bnd2}
use simplex.Machine.Bytes.{Memory}
use simplex.Bounds.Frame.{
  IsReady, Keeps, Keeps-with_bound, Keeps-trans, Keeps-IsReady, Keeps-mpx_on,
}
use simplex.Bounds.Mutators.{qsetbndl}
use simplex.Bounds.Writes.{with_bound, qsetbndl_lem}
use simplex.Runtime.Support.{check_mpx_support}
use simplex.Runtime.Xsave.{Outcome, ok, and_then}
use simplex.Runtime.Outcomes.{configured}
use simplex.Runtime.Lifecycle.{
  IsHosted, Keeps-IsHosted, configured-IsHosted, mpx_on-configured, init_ok,
}
use simplex.SimplexString.Pointers.{AreBytes}
use simplex.Benchmark.{
  randomize, random_string, randomize_lem, IsMemcpy, corrupt, IsCorrupted, corrupt-IsCorrupted,
}
use simplex.Benchmark.Filled.{randomize-AreBytes, corrupt-AreBytes, written-IsHosted}
use simplex.Benchmark.Fixtures.{size, drawn, certain, on_memory, string_set_up}

-- Two regions of that size that `malloc` can have returned: apart, and clear of the stack slot of a machine
-- with the stack pointer `rsp`.
pub record AreBuffers (s1 s2 rsp : ℕ) : Type 0 where
  pub first_nonnull : s1 ≢ 0
  pub second_nonnull : s2 ≢ 0
  pub first_fits : s1 + size ≤ 2 ^ 64
  pub second_fits : s2 + size ≤ 2 ^ 64
  pub apart : (s1 + size ≤ s2) ⊎ (s2 + size ≤ s1)
  pub first_clear : (i : ℕ) → i < size → 16 ≤ sub64 (add64 s1 i) (sub64 rsp 0x80)
  pub second_clear : (i : ℕ) → i < size → 16 ≤ sub64 (add64 s2 i) (sub64 rsp 0x80)

pub then_ok :
    {A B : Type 0} {a : A} {m : Machine} {o : Outcome A} {r : Outcome B}
    (k : A → Machine → Outcome B)
    → o ≡ ok a m
    → k a m ≡ r
    → and_then o k ≡ r
then_ok k e f = ap (λ o. and_then o k) e ∙ f

abbrev certain_of : {A : Type 0} → A × Machine → Outcome A
certain_of r = ok r.0 r.1

-- Both pointers in their registers.
abbrev pointed : ℕ → ℕ → Memory → Machine → Machine
pointed s1 s2 mem m =
    with_bound bnd2 s2 s2 (with_bound bnd1 s1 s1 (configured 3 (record m { mem = mem })))

pointed_lem :
    (s1 s2 : ℕ) (mem : Memory) (m : Machine)
    → let m' = pointed s1 s2 mem m in
      ((m'.bnds bnd1).lb ≡ s1) × ((m'.bnds bnd2).lb ≡ s2) × (m'.mem ≡ mem) × (m'.rsp ≡ m.rsp)
unfolding with_bound
pointed_lem s1 s2 mem m = (refl, refl, refl, refl)

module _ {s1 s2 : ℕ} {m : Machine} (buffers : AreBuffers s1 s2 m.rsp) (h : IsHosted m)
    (mem : Memory) (ok_mem : AreBytes mem) where
  abbrev loaded : Machine
  loaded = record m { mem = mem }

  loaded-IsHosted : IsHosted loaded
  loaded-IsHosted = written-IsHosted h mem ok_mem

  abbrev started : Machine
  started = configured 3 loaded

  started-on : mpx_on started ≡ true
  started-on = mpx_on-configured 3 loaded

  abbrev one : Machine
  one = with_bound bnd1 s1 s1 started

  one-Keeps : Keeps started one
  one-Keeps = Keeps-with_bound bnd1 s1 s1 started (omega (arith, buffers.first_fits))

  two-Keeps : Keeps one (pointed s1 s2 mem m)
  two-Keeps = Keeps-with_bound bnd2 s2 s2 one (omega (arith, buffers.second_fits))

  pointed-IsReady : IsReady (pointed s1 s2 mem m)
  pointed-IsReady =
      Keeps-IsReady (Keeps-trans one-Keeps two-Keeps)
        (record { machine = (configured-IsHosted 3 loaded-IsHosted).machine; on = started-on })

  pointed-IsHosted : IsHosted (pointed s1 s2 mem m)
  pointed-IsHosted =
      Keeps-IsHosted (Keeps-trans one-Keeps two-Keeps) (configured-IsHosted 3 loaded-IsHosted)

  first_set : qsetbndl 1 s1 started ≡ (tt, one)
  first_set = qsetbndl_lem bnd1 started started-on s1 (omega (arith, buffers.first_fits))

  second_set : qsetbndl 2 s2 one ≡ (tt, pointed s1 s2 mem m)
  second_set =
      qsetbndl_lem bnd2 one (Keeps-mpx_on one-Keeps ∙ started-on) s2
        (omega (arith, buffers.second_fits))

  string_set_up_lem :
      (rand : ℕ → ℕ) (memcpy : ℕ → ℕ → ℕ → Memory → Memory) (cpu : Cpu)
      → check_mpx_support cpu ≡ true
      → corrupt (rand (drawn rand memcpy s1)) memcpy s2 s1 size (randomize rand s1 size m.mem)
        ≡ some mem
      → string_set_up rand memcpy cpu s1 s2 m ≡ ok tt (pointed s1 s2 mem m)
  unfolding string_set_up
  string_set_up_lem rand memcpy cpu supported e =
      let first = randomize rand s1 size m.mem in
      then_ok _ (ap (λ o. on_memory o (record m { mem = first })) e) (
        then_ok _ (init_ok cpu supported loaded-IsHosted) (
          then_ok (λ _. certain (qsetbndl 2 s2)) (ap certain_of first_set)
            (ap certain_of second_set)))

-- What `SetUp` leaves: a machine with MPX on, both pointers in their registers, a random string at the first
-- and its copy with byte `k` inverted at the second.
pub record IsPrepared (rand : ℕ → ℕ) (k s1 s2 rsp : ℕ) (m : Machine) : Type 0 where
  pub ready : IsReady m
  pub hosted : IsHosted m
  pub first : (m.bnds bnd1).lb ≡ s1
  pub second : (m.bnds bnd2).lb ≡ s2
  pub stack : m.rsp ≡ rsp
  pub string : (i : ℕ) → i < size → m.mem (add64 s1 i) ≡ random_string rand size i
  pub copy :
      (i : ℕ)
      → i < size
      → m.mem (add64 s2 i)
        ≡ (if i == k then 255 - random_string rand size i else random_string rand size i)

-- The byte that `corrupt` inverts.
abbrev pub inverted : (ℕ → ℕ) → ℕ
inverted rand = rand (size - 1) % size

-- A `SetUp` that ends so, and has written nothing outside the two buffers.
pub record Prepares (rand : ℕ → ℕ) (s1 s2 : ℕ) (m : Machine) (o : Outcome (Unit {0})) : Type 0 where
  pub final : Machine
  pub ends : o ≡ ok tt final
  pub prepared : IsPrepared rand (inverted rand) s1 s2 m.rsp final
  pub beside : (x : ℕ) → IsWord x → size ≤ sub64 x s1 → size ≤ sub64 x s2 → final.mem x ≡ m.mem x

module _ (rand : ℕ → ℕ) {s1 s2 : ℕ} {m : Machine} (b : AreBuffers s1 s2 m.rsp)
    (h : IsHosted m) where
  abbrev filled : Memory
  filled = randomize rand s1 size m.mem

  at_first : (i : ℕ) → i < size → filled (add64 s1 i) ≡ random_string rand size i
  at_first i l =
      let d : sub64 (add64 s1 i) s1 ≡ i = omega (arith, b.first_fits) in
      randomize_lem rand s1 size m.mem (omega (arith, b.first_fits)) (omega arith) b.first_nonnull
        (omega arith) (add64 s1 i) (omega arith)
      ∙ rw d (ground arith)

  module _ (mem : Memory) (ok_mem : AreBytes mem)
      (c : IsCorrupted (rand (size - 1)) s2 s1 size filled mem) where
    mem_at : (x : ℕ) → (pointed s1 s2 mem m).mem x ≡ mem x
    unfolding with_bound
    mem_at x = refl

    pointed_beside :
        (x : ℕ)
        → IsWord x
        → size ≤ sub64 x s1
        → size ≤ sub64 x s2
        → (pointed s1 s2 mem m).mem x ≡ m.mem x
    pointed_beside x word first second =
        mem_at x
        ∙ c.outside x word second
        ∙ randomize_lem rand s1 size m.mem (omega (arith, b.first_fits)) (omega arith)
            b.first_nonnull (omega arith) x word
        ∙ ground arith

    pointed-IsPrepared : IsPrepared rand (inverted rand) s1 s2 m.rsp (pointed s1 s2 mem m)
    pointed-IsPrepared =
        let at = pointed_lem s1 s2 mem m in
        record {
          ready = pointed-IsReady b h mem ok_mem;
          hosted = pointed-IsHosted b h mem ok_mem;
          first = at.0;
          second = at.1;
          stack = at.3;
          string = λ i l.
              mem_at (add64 s1 i)
              ∙ c.outside (add64 s1 i) (omega arith)
                  (omega (arith, b.apart, b.first_fits, b.second_fits))
              ∙ at_first i l;
          copy = λ i l.
              mem_at (add64 s2 i)
              ∙ c.inside i l
              ∙ ap (λ (v : ℕ). if i == inverted rand then 255 - v else v) (at_first i l);
        }

-- With a `memcpy` as the C library documents it, which leaves bytes, on a processor that passes the check
-- and a machine of 64-bit registers and bytes whose operating system has enabled XSAVE with the two MPX
-- components, and with two buffers from `malloc` that lie apart and clear of the stack slot: `SetUp` ends
-- without a fault on a machine of the same kind, with MPX on, the stack pointer as it was, the two
-- pointers in BND1 and BND2, a random string at the first, at the second its copy with one byte inverted,
-- and no other byte changed.
pub string_set_up-Prepares :
    (rand : ℕ → ℕ) (memcpy : ℕ → ℕ → ℕ → Memory → Memory)
    → IsMemcpy memcpy
    → ((d s len : ℕ) (mem : Memory) → AreBytes mem → AreBytes (memcpy d s len mem))
    → (cpu : Cpu) → check_mpx_support cpu ≡ true
    → (s1 s2 : ℕ) {m : Machine} → AreBuffers s1 s2 m.rsp
    → IsHosted m
    → Prepares rand s1 s2 m (string_set_up rand memcpy cpu s1 s2 m)
string_set_up-Prepares rand memcpy documented bytes cpu supported s1 s2 {m} b h =
    let (mem, e, c) =
      corrupt-IsCorrupted (rand (size - 1)) memcpy documented s2 s1 size (filled rand b h)
        b.second_nonnull b.first_nonnull (omega arith) (omega arith) (omega (arith, b.second_fits))
        (omega (arith, b.first_fits)) b.second_fits b.first_fits (omega (arith, b.apart)) in
    prepares mem e c
  where
    same : drawn rand memcpy s1 ≡ size - 1
    same = ground (arith, b.first_nonnull)

    prepares :
        (mem : Memory)
        → corrupt (rand (size - 1)) memcpy s2 s1 size (filled rand b h) ≡ some mem
        → IsCorrupted (rand (size - 1)) s2 s1 size (filled rand b h) mem
        → Prepares rand s1 s2 m (string_set_up rand memcpy cpu s1 s2 m)
    prepares mem e c =
        let ok_mem : AreBytes mem =
          corrupt-AreBytes (rand (size - 1)) memcpy bytes s2 s1 size (filled rand b h) mem
            b.second_nonnull b.first_nonnull (omega arith)
            (randomize-AreBytes rand s1 size m.mem h.machine.bytes) e in
        record {
          final = pointed s1 s2 mem m;
          ends =
              string_set_up_lem b h mem ok_mem rand memcpy cpu supported
                (ap (λ (d : ℕ). corrupt (rand d) memcpy s2 s1 size (filled rand b h)) same ∙ e);
          prepared = pointed-IsPrepared rand b h mem ok_mem c;
          beside = pointed_beside rand b h mem ok_mem c;
        }
