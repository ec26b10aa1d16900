-- ===== src/Benchmark/LoadStore/Running.antt =====
-- What the ten benchmarks of `LoadStoreFixture` need of a processor and leave.
use simplex.Base.{sym, ℕ, ◌%◌, ◌==◌, ◌≡◌, refl, ap, ◌∙◌, arith, true, List, [], ◌∷◌, add64, sub64}
use simplex.Machine.{bnd0, Machine, slot}
use simplex.Machine.Bytes.{Memory, store64, load64}
use simplex.Bounds.Frame.{Keeps-spilled, Keeps-with_bound, byte_of-lt}
use simplex.Bounds.Blocks.{spilled, spill_lower_lem, lower_half}
use simplex.Bounds.Writes.{with_bound, qsetbndl_case, qsetbndl_lem}
use simplex.Bounds.Values.{load64-IsWord, lower_half-IsWord}
use simplex.SimplexString.Pointers.{AreBytes}
use simplex.Benchmark.Alive.{IsAlive, Keeps-IsAlive, written-IsAlive}
use simplex.Benchmark.LoadStore.{
  Processor, Ended, returns, and_then, with_mem, Place, gp, seg, mmx, xmm, bnd, aligned, store,
  load, Benchmark, stores, loads, body, bodies,
}
use simplex.Benchmark.LoadStore.Words.{HoldsWords, changed, spread, holding}

store64-AreBytes : (mem : Memory) (a v : ℕ) → AreBytes mem → AreBytes (store64 mem a v)
unfolding store64
store64-AreBytes mem a v h x = ground (arith, h x, byte_of-lt v (sub64 x a))

-- What every benchmark finds and leaves.
pub record IsRunning (top base : ℕ) (p : Processor) : Type 0 where
  pub alive : IsAlive p.machine
  pub rsp : p.machine.rsp ≡ top
  pub gs_base : p.gs_base ≡ base
  pub words : HoldsWords p

pub record Leaves (P : Processor → Type 0) (e : Ended) : Type 0 where
  pub final : Processor
  pub ends : e ≡ returns final
  pub holds : P final

pub then_returns :
    {p : Processor} {e r : Ended} (k : Processor → Ended)
    → e ≡ returns p
    → k p ≡ r
    → and_then e k ≡ r
then_returns k e f = ap (λ x. and_then x k) e ∙ f

halves-AreBytes :
    (a low high : ℕ) (mem : Memory)
    → AreBytes mem
    → AreBytes (store64 (store64 mem a low) (add64 a 8) high)
halves-AreBytes a low high mem h =
    store64-AreBytes _ (add64 a 8) high (store64-AreBytes mem a low h)

module _ {top base : ℕ} (fits : (sub64 top 0x80 % 16 == 0) ≡ true) where
  aligned-top : {p : Processor} → IsRunning top base p → aligned p ≡ true
  aligned-top r = rw r.rsp fits

  -- The words in registers change and the machine does not.
  moves :
      {p : Processor} (r15 mm0 val : ℕ)
      → IsRunning top base p
      → HoldsWords (record p { r15 = r15; mm0 = mm0; val = val })
      → Leaves (IsRunning top base) (returns (record p { r15 = r15; mm0 = mm0; val = val }))
  moves r15 mm0 val r w = record {
    final = _;
    ends = refl;
    holds = record { alive = r.alive; rsp = r.rsp; gs_base = r.gs_base; words = w };
  }

  stores-Leaves :
      (place : Place) {p : Processor}
      → IsRunning top base p
      → Leaves (IsRunning top base) (store place p)
  unfolding store
  stores-Leaves gp r = moves _ _ _ r (changed r.words r.words.val_fits r.words.mm0_fits)
  stores-Leaves mmx r = moves _ _ _ r (changed r.words r.words.r15_fits r.words.val_fits)
  stores-Leaves seg {p} r =
      let h = store64-AreBytes p.machine.mem p.gs_base p.val r.alive.hosted.machine.bytes in
      record {
        final = _;
        ends = refl;
        holds = record {
          alive = written-IsAlive r.alive _ h;
          rsp = r.rsp;
          gs_base = r.gs_base;
          words = r.words;
        };
      }
  stores-Leaves xmm {p} r =
      let a = slot 0x80 p.machine in
      let mem' = store64 p.machine.mem a p.val in
      let h = store64-AreBytes p.machine.mem a p.val r.alive.hosted.machine.bytes in
      record {
        final = record (with_mem mem' p) {
          xmm1_low = load64 mem' a;
          xmm1_high = load64 mem' (add64 a 8);
        };
        ends = rw (aligned-top r) refl;
        holds = record {
          alive = written-IsAlive r.alive _ h;
          rsp = r.rsp;
          gs_base = r.gs_base;
          words = spread r.words (load64-IsWord _ a h) (load64-IsWord _ (add64 a 8) h);
        };
      }
  stores-Leaves bnd {p} r =
      let ok = r.alive.hosted.machine in
      let set = qsetbndl_lem bnd0 p.machine r.alive.on p.val r.words.val_fits in
      let kept = Keeps-with_bound bnd0 p.val p.val p.machine r.words.val_fits in
      record {
        final = record p { machine = with_bound bnd0 p.val p.val p.machine };
        ends =
            ap (λ (t : Unit {0} × Machine). returns (record p { machine = t.1 }))
              (sym (qsetbndl_case bnd0 p.val p.machine) ∙ set);
        holds = record {
          alive = Keeps-IsAlive r.alive kept;
          rsp = kept.rsp ∙ r.rsp;
          gs_base = r.gs_base;
          words = r.words;
        };
      }

  loads-Leaves :
      (place : Place) {p : Processor}
      → IsRunning top base p
      → Leaves (IsRunning top base) (load place p)
  unfolding load
  loads-Leaves gp r = moves _ _ _ r (holding r.words r.words.gs_fits r.words.r15_fits)
  loads-Leaves seg r = moves _ _ _ r (holding r.words r.words.gs_fits r.words.gs_fits)
  loads-Leaves mmx r = moves _ _ _ r (holding r.words r.words.gs_fits r.words.mm0_fits)
  loads-Leaves xmm {p} r =
      let a = slot 0x80 p.machine in
      let mem' = store64 (store64 p.machine.mem a p.xmm1_low) (add64 a 8) p.xmm1_high in
      let h = halves-AreBytes a p.xmm1_low p.xmm1_high p.machine.mem r.alive.hosted.machine.bytes in
      record {
        final = record (with_mem mem' p) { val = load64 mem' a };
        ends = rw (aligned-top r) refl;
        holds = record {
          alive = written-IsAlive r.alive _ h;
          rsp = r.rsp;
          gs_base = r.gs_base;
          words = holding r.words r.words.gs_fits (load64-IsWord _ a h);
        };
      }
  loads-Leaves bnd {p} r =
      let ok = r.alive.hosted.machine in
      let kept = Keeps-spilled bnd0 p.machine in
      record {
        final = record p { machine = spilled bnd0 p.machine; val = lower_half bnd0 p.machine };
        ends =
            ap (λ (t : ℕ × Machine). returns (record p { machine = t.1; val = t.0 }))
              (spill_lower_lem bnd0 ok);
        holds = record {
          alive = Keeps-IsAlive r.alive kept;
          rsp = kept.rsp ∙ r.rsp;
          gs_base = r.gs_base;
          words = holding r.words r.words.gs_fits (lower_half-IsWord ok bnd0);
        };
      }

  body-Leaves :
      (b : Benchmark) {p : Processor}
      → IsRunning top base p
      → Leaves (IsRunning top base) (body b p)
  unfolding body
  body-Leaves (stores place) r = stores-Leaves place r
  body-Leaves (loads place) r = loads-Leaves place r

  pub bodies-Leaves :
      (bs : List Benchmark) {p : Processor}
      → IsRunning top base p
      → Leaves (IsRunning top base) (bodies bs p)
  unfolding bodies
  bodies-Leaves [] {p} r = record { final = p; ends = refl; holds = r }
  bodies-Leaves (b ∷ bs) {p} r =
      let first = body-Leaves b r in
      let rest = bodies-Leaves bs first.holds in
      record {
        final = rest.final;
        ends = then_returns (bodies bs) first.ends rest.ends;
        holds = rest.holds;
      }
