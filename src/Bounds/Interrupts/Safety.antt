-- ===== src/Bounds/Interrupts/Safety.antt =====
-- Handlers between the instructions.
use simplex.Base.{
  subst, ℕ, ◌≤◌, ◌<◌, ◌≡◌, refl, ap, ◌∙◌, arith, String, add64, sub64, inl, inr, Bool-cases,
  bit_and,
}
use simplex.Machine.{BndName, BndFile, Machine, mpx_on, slot, bndmov, bndmk, mov_load, andq, report}
use simplex.Machine.Bytes.{store64, load64}
use simplex.Machine.Stores.{load64-agree}
use simplex.Bounds.Interrupts.Code.{Code, done, spill, make, read, mask, print, run}

-- The size of the red zone, which the deepest slot of the code begins.
abbrev pub zone : ℕ
zone = 0x80

-- Two machines that only memory outside the red zone and the messages can tell apart. This is also how a
-- handler that returns leaves a machine: the kernel restores its registers from the signal frame.
pub record Agrees (m m' : Machine) : Type 0 where
  pub bnds : m'.bnds ≡ m.bnds
  pub bndcfgu : m'.bndcfgu ≡ m.bndcfgu
  pub bndstatus : m'.bndstatus ≡ m.bndstatus
  pub xcr0 : m'.xcr0 ≡ m.xcr0
  pub osxsave : m'.osxsave ≡ m.osxsave
  pub rsp : m'.rsp ≡ m.rsp
  pub red_zone : (x : ℕ) → sub64 x (slot zone m) < zone → m'.mem x ≡ m.mem x

pub Agrees-refl : (m : Machine) → Agrees m m
Agrees-refl m = record {
  bnds = refl;
  bndcfgu = refl;
  bndstatus = refl;
  xcr0 = refl;
  osxsave = refl;
  rsp = refl;
  red_zone = λ x h. refl;
}

Agrees-trans : {m m' m'' : Machine} → Agrees m m' → Agrees m' m'' → Agrees m m''
Agrees-trans a b = record {
  bnds = b.bnds ∙ a.bnds;
  bndcfgu = b.bndcfgu ∙ a.bndcfgu;
  bndstatus = b.bndstatus ∙ a.bndstatus;
  xcr0 = b.xcr0 ∙ a.xcr0;
  osxsave = b.osxsave ∙ a.osxsave;
  rsp = b.rsp ∙ a.rsp;
  red_zone = λ x h. b.red_zone x (rw a.rsp h) ∙ a.red_zone x h;
}

-- A run of code in which the world may take a machine to a related one before any instruction and behind the
-- last, as often as it likes.
pub data Executed (Between : Machine → Machine → Type 0) {A : Type 0}
    : Code A → Machine → A → Machine → Type 0 where
  ends : (a : A) (m : Machine) → Executed Between (done a) m a m
  spills :
      {n : BndName} {d : ℕ} {p : Code A} {m m' : Machine} {a : A}
      → Executed Between p (bndmov n d m).1 a m'
      → Executed Between (spill n d p) m a m'
  makes :
      {n : BndName} {base index : ℕ} {p : Code A} {m m' : Machine} {a : A}
      → Executed Between p (bndmk n base index m).1 a m'
      → Executed Between (make n base index p) m a m'
  reads :
      {d : ℕ} {k : ℕ → Code A} {m m' : Machine} {a : A}
      → Executed Between (k (mov_load d m).0) (mov_load d m).1 a m'
      → Executed Between (read d k) m a m'
  masks :
      {imm d : ℕ} {p : Code A} {m m' : Machine} {a : A}
      → Executed Between p (andq imm d m).1 a m'
      → Executed Between (mask imm d p) m a m'
  prints :
      {caller : String} {reg : ℕ} {p : Code A} {m m' : Machine} {a : A}
      → Executed Between p (report caller reg m).1 a m'
      → Executed Between (print caller reg p) m a m'
  disturbed :
      {p : Code A} {m m1 m' : Machine} {a : A}
      → Between m m1
      → Executed Between p m1 a m'
      → Executed Between p m a m'

-- Handlers run between the instructions.
abbrev pub Interrupted : {A : Type 0} → Code A → Machine → A → Machine → Type 0
Interrupted = Executed Agrees

-- Code that writes, reads and clears nothing but the red zone.
abbrev pub InZone : {A : Type 0} → Code A → Type 0
InZone (done a) = Unit
InZone (spill n d p) = (16 ≤ d) × (d ≤ zone) × InZone p
InZone (make n base index p) = InZone p
InZone (read d k) = (8 ≤ d) × (d ≤ zone) × ((v : ℕ) → InZone (k v))
InZone (mask imm d p) = (8 ≤ d) × (d ≤ zone) × InZone p
InZone (print caller reg p) = InZone p

-- Each instruction takes machines that agree to machines that agree.
module _ {m m' : Machine} (g : Agrees m m') where
  load-Agrees : (d : ℕ) → 8 ≤ d → d ≤ zone → load64 m'.mem (slot d m') ≡ load64 m.mem (slot d m)
  load-Agrees d lo hi =
      ap (λ (r : ℕ). load64 m'.mem (sub64 r d)) g.rsp
      ∙ load64-agree m'.mem m.mem (slot d m) (λ i l. g.red_zone (add64 (slot d m) i) (omega arith))

  mpx_on-Agrees : mpx_on m' ≡ mpx_on m
  unfolding mpx_on
  mpx_on-Agrees = rw g.bndcfgu

  store64-Agrees :
      (a v : ℕ)
      → Agrees (record m { mem = store64 m.mem a v }) (record m' { mem = store64 m'.mem a v })
  unfolding store64
  store64-Agrees a v = record {
    bnds = g.bnds;
    bndcfgu = g.bndcfgu;
    bndstatus = g.bndstatus;
    xcr0 = g.xcr0;
    osxsave = g.osxsave;
    rsp = g.rsp;
    red_zone = λ x h. ground (arith, g.red_zone x h);
  }

same_slot : {m m' : Machine} → Agrees m m' → (d : ℕ) → slot d m' ≡ slot d m
same_slot g d = ap (λ (r : ℕ). sub64 r d) g.rsp

two_stores-Agrees :
    {m m' : Machine}
    → Agrees m m'
    → {a a' b b' v v' w w' : ℕ} → a' ≡ a
    → b' ≡ b
    → v' ≡ v
    → w' ≡ w
    → Agrees
        (record m { mem = store64 (store64 m.mem a v) b w })
        (record m' { mem = store64 (store64 m'.mem a' v') b' w' })
two_stores-Agrees g {a} {b} {v} {w} ea eb ev ew =
    rw (ea, eb, ev, ew) (store64-Agrees (store64-Agrees g a v) b w)

bndmov-Agrees :
    {m m' : Machine}
    → Agrees m m'
    → (n : BndName) (d : ℕ) → Agrees (bndmov n d m).1 (bndmov n d m').1
unfolding bndmov
bndmov-Agrees {m} {m'} g n d = elim (Bool-cases (mpx_on m)) [
  | inl on ↦
      rw (mpx_on-Agrees g, on)
        (two_stores-Agrees g (same_slot g d) (ap (λ (a : ℕ). add64 a 8) (same_slot g d))
          (ap (λ (f : BndFile). (f n).lb) g.bnds) (ap (λ (f : BndFile). (f n).ub) g.bnds))
  | inr off ↦ rw (mpx_on-Agrees g, off) g
]

bndmk-Agrees :
    {m m' : Machine}
    → Agrees m m'
    → (n : BndName) (base index : ℕ) → Agrees (bndmk n base index m).1 (bndmk n base index m').1
unfolding bndmk
bndmk-Agrees {m} {m'} g n base index = elim (Bool-cases (mpx_on m)) [
  | inl on ↦
      rw (mpx_on-Agrees g, on)
        (record {
          bnds = rw g.bnds;
          bndcfgu = g.bndcfgu;
          bndstatus = g.bndstatus;
          xcr0 = g.xcr0;
          osxsave = g.osxsave;
          rsp = g.rsp;
          red_zone = g.red_zone;
        })
  | inr off ↦ rw (mpx_on-Agrees g, off) g
]

andq-Agrees :
    {m m' : Machine}
    → Agrees m m'
    → (imm d : ℕ) → 8 ≤ d
    → d ≤ zone
    → Agrees (andq imm d m).1 (andq imm d m').1
unfolding andq
andq-Agrees {m} {m'} g imm d lo hi =
    rw (load-Agrees g d lo hi, same_slot g d)
      (store64-Agrees g (slot d m) (bit_and (load64 m.mem (slot d m)) imm))

report-Agrees :
    {m m' : Machine}
    → Agrees m m'
    → (caller : String) (reg : ℕ) → Agrees (report caller reg m).1 (report caller reg m').1
unfolding report
report-Agrees g caller reg = record {
  bnds = g.bnds;
  bndcfgu = g.bndcfgu;
  bndstatus = g.bndstatus;
  xcr0 = g.xcr0;
  osxsave = g.osxsave;
  rsp = g.rsp;
  red_zone = g.red_zone;
}

-- What an interrupted run has in common with one that nothing interrupts.
pub record Same {A : Type 0} (plain : A × Machine) (a : A) (m' : Machine) : Type 0 where
  pub value : a ≡ plain.0
  pub agrees : Agrees plain.1 m'

pub Interrupted-Same :
    {A : Type 0} {p : Code A} {m m1 m' : Machine} {a : A}
    → InZone p
    → Agrees m m1
    → Interrupted p m1 a m'
    → Same (run p m) a m'
unfolding run mov_load
Interrupted-Same z g (ends a m) = record { value = refl; agrees = g }
Interrupted-Same z g (spills {n} {d} r) = Interrupted-Same z.2 (bndmov-Agrees g n d) r
Interrupted-Same z g (makes {n} {base} {index} r) =
    Interrupted-Same z (bndmk-Agrees g n base index) r
Interrupted-Same {m} {m1} z g (reads {d} {k} {m' = m'} {a} r) =
    subst (λ v. Same (run (k v) m) a m') (load-Agrees g d z.0 z.1)
      (Interrupted-Same (z.2 (load64 m1.mem (slot d m1))) g r)
Interrupted-Same z g (masks {imm} {d} r) = Interrupted-Same z.2 (andq-Agrees g imm d z.0 z.1) r
Interrupted-Same z g (prints {caller} {reg} r) = Interrupted-Same z (report-Agrees g caller reg) r
Interrupted-Same z g (disturbed h r) = Interrupted-Same z (Agrees-trans g h) r
