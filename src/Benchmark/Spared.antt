-- ===== src/Benchmark/Spared.antt =====
-- Steps of a benchmark that write nothing outside the first buffer and the stack slot.
use simplex.Base.{ℕ, subst, sym, ◌≤◌, ◌≡◌, refl, ap, ◌∙◌, sub64, IsWord}
use simplex.Machine.{BndName, bnd1, bnd2, BndFile, Machine}
use simplex.Machine.Bytes.{Memory}
use simplex.Bounds.Bndreg.{encode}
use simplex.Bounds.Accessors.{qgetbndl}
use simplex.Bounds.Mutators.{qsetbndl}
use simplex.Bounds.Blocks.{spilled}
use simplex.Bounds.Frame.{IsReady, Keeps-spilled, Keeps-with_bound}
use simplex.Bounds.Writes.{with_bound, qsetbndl_lem}
use simplex.SimplexString.Pointers.{AreBytes, qgetbndl-ready, bnds-spilled}
use simplex.Benchmark.Alive.{IsAlive, Keeps-IsAlive, written-IsAlive}
use simplex.Benchmark.Fixtures.{size}

-- Neither in the first buffer nor in the stack slot below `top`.
pub record IsOutside (s1 top x : ℕ) : Type 0 where
  pub word : IsWord x
  pub buffer : size ≤ sub64 x s1
  pub stack : 16 ≤ sub64 x (sub64 top 0x80)

-- MPX is on and BND1 holds the pointer to the first buffer.
pub record IsPointing (s1 top : ℕ) (m : Machine) : Type 0 where
  pub alive : IsAlive m
  pub rsp : m.rsp ≡ top
  pub pointer : (m.bnds bnd1).lb ≡ s1

pub record Stays (s1 top : ℕ) (m m' : Machine) : Type 0 where
  pub pointing : IsPointing s1 top m'
  pub mem : (x : ℕ) → IsOutside s1 top x → m'.mem x ≡ m.mem x

pub Stays-refl : {s1 top : ℕ} {m : Machine} → IsPointing s1 top m → Stays s1 top m m
Stays-refl p = record { pointing = p; mem = λ x o. refl }

pub Stays-trans :
    {s1 top : ℕ} {m m' m'' : Machine} → Stays s1 top m m' → Stays s1 top m' m'' → Stays s1 top m m''
Stays-trans a b = record { pointing = b.pointing; mem = λ x o. b.mem x o ∙ a.mem x o }

module _ {s1 top : ℕ} {m : Machine} (p : IsPointing s1 top m) where
  ready : IsReady m
  ready = record { machine = p.alive.hosted.machine; on = p.alive.on }

  spilled-Stays : (n : BndName) → Stays s1 top m (spilled n m)
  spilled-Stays n =
      let k = Keeps-spilled n m in
      record {
        pointing = record {
          alive = Keeps-IsAlive p.alive k;
          rsp = k.rsp ∙ p.rsp;
          pointer = ap (λ (f : BndFile). (f bnd1).lb) (bnds-spilled n m) ∙ p.pointer;
        };
        mem = λ x o. k.outside x (rw p.rsp o.stack);
      }

  pub written-Stays :
      (mem : Memory)
      → AreBytes mem
      → ((x : ℕ) → IsOutside s1 top x → mem x ≡ m.mem x)
      → Stays s1 top m (record m { mem = mem })
  written-Stays mem h away = record {
    pointing = record { alive = written-IsAlive p.alive mem h; rsp = p.rsp; pointer = p.pointer };
    mem = away;
  }

  -- `qgetbndl`: the register's lower half, and the machine with it on the stack.
  fetched : (n : BndName) → qgetbndl (encode n) m ≡ ((m.bnds n).lb, spilled n m)
  fetched n = qgetbndl-ready n ready

  pub fetched-Stays : (n : BndName) → Stays s1 top m (qgetbndl (encode n) m).1
  fetched-Stays n =
      subst (λ (r : ℕ × Machine). Stays s1 top m r.1) (sym (fetched n)) (spilled-Stays n)

  pub first_fetched : (qgetbndl 1 m).0 ≡ s1
  first_fetched = ap (λ (r : ℕ × Machine). r.0) (fetched bnd1) ∙ p.pointer

  pub set_first-Stays : IsWord s1 → Stays s1 top m (qsetbndl 1 s1 m).1
  set_first-Stays fits =
      let k = Keeps-with_bound bnd1 s1 s1 m fits in
      subst (λ (r : Unit {0} × Machine). Stays s1 top m r.1)
        (sym (qsetbndl_lem bnd1 m p.alive.on s1 fits))
        (record {
          pointing = record {
            alive = Keeps-IsAlive p.alive k;
            rsp = k.rsp ∙ p.rsp;
            pointer = unfold with_bound in refl;
          };
          mem = λ x o. k.outside x (rw p.rsp o.stack);
        })

  pub set_second-Stays : (v : ℕ) → IsWord v → Stays s1 top m (qsetbndl 2 v m).1
  set_second-Stays v fits =
      let k = Keeps-with_bound bnd2 v v m fits in
      subst (λ (r : Unit {0} × Machine). Stays s1 top m r.1)
        (sym (qsetbndl_lem bnd2 m p.alive.on v fits))
        (record {
          pointing = record {
            alive = Keeps-IsAlive p.alive k;
            rsp = k.rsp ∙ p.rsp;
            pointer = unfold with_bound in p.pointer;
          };
          mem = λ x o. k.outside x (rw p.rsp o.stack);
        })

-- Writing that spares what is outside, at the first pointer and any second one.
pub record Spares (s1 top : ℕ) (f : ℕ → ℕ → Memory → Memory) : Type 0 where
  pub bytes : (d s : ℕ) (mem : Memory) → AreBytes mem → AreBytes (f d s mem)
  pub away : (s : ℕ) (mem : Memory) (x : ℕ) → IsOutside s1 top x → f s1 s mem x ≡ mem x

module _ {s1 top : ℕ} {f : ℕ → ℕ → Memory → Memory} (spares : Spares s1 top f) where
  pub plain-Stays :
      (s : ℕ) {m : Machine} → IsPointing s1 top m → Stays s1 top m (record m { mem = f s1 s m.mem })
  plain-Stays s {m} p =
      written-Stays p _ (spares.bytes s1 s m.mem p.alive.hosted.machine.bytes)
        (λ x o. spares.away s m.mem x o)

  -- A hidden copy: two pointers, a write, a pointer.
  pub copy-Stays :
      {m : Machine}
      → IsPointing s1 top m
      → let r1 = qgetbndl 1 m in
        let r2 = qgetbndl 2 r1.1 in
        Stays s1 top m (qgetbndl 1 (record (r2.1) { mem = f r1.0 r2.0 r2.1.mem })).1
  copy-Stays {m} p =
      let r1 = qgetbndl 1 m in
      let r2 = qgetbndl 2 r1.1 in
      let a = fetched-Stays p bnd1 in
      let b = fetched-Stays a.pointing bnd2 in
      let c =
        written-Stays b.pointing (f r1.0 r2.0 r2.1.mem)
          (spares.bytes r1.0 r2.0 r2.1.mem b.pointing.alive.hosted.machine.bytes)
          (λ x o.
            ap (λ (d : ℕ). f d r2.0 r2.1.mem x) (first_fetched p)
            ∙ spares.away r2.0 r2.1.mem x o) in
      Stays-trans (Stays-trans (Stays-trans a b) c) (fetched-Stays c.pointing bnd1)
