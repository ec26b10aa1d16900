-- ===== src/Bounds/Frame.antt =====
-- What every call of the interface leaves alone: all state but the bounds, the message log and the
-- 16 bytes at -0x80(%rsp); and the conditions under which the calls keep their promise.
use simplex.Base.{
  ℕ, ◌≤◌, ◌<◌, ◌≡◌, refl, ◌∙◌, inl, inr, arith, true, Bool-cases, List, add64, sub64, IsWord,
}
use simplex.Machine.{BndName, Machine, Message, mpx_on, slot, bndmov}
use simplex.Machine.Bytes.{store64, byte_of}
use simplex.Machine.Stores.{scrub}
use simplex.Bounds.Blocks.{IsMachine, scrubbed, spilled}
use simplex.Bounds.Writes.{with_bound}

-- A machine of 64-bit registers and bytes on which the MPX instructions act.
pub record IsReady (m : Machine) : Type 0 where
  pub machine : IsMachine m
  pub on : mpx_on m ≡ true

pub record Keeps (m m' : Machine) : Type 0 where
  pub machine : IsMachine m → IsMachine m'
  pub outside : (x : ℕ) → 16 ≤ sub64 x (slot 0x80 m) → m'.mem x ≡ m.mem x
  pub bndcfgu : m'.bndcfgu ≡ m.bndcfgu
  pub bndstatus : m'.bndstatus ≡ m.bndstatus
  pub xcr0 : m'.xcr0 ≡ m.xcr0
  pub osxsave : m'.osxsave ≡ m.osxsave
  pub rsp : m'.rsp ≡ m.rsp

-- Nothing but the 16 bytes at -0x80(%rsp) changes.
pub record KeepsAll (m m' : Machine) : Type 0 where
  pub keeps : Keeps m m'
  pub bnds : m'.bnds ≡ m.bnds
  pub stderr : m'.stderr ≡ m.stderr

pub Keeps-refl : (m : Machine) → Keeps m m
Keeps-refl m = record {
  machine = λ ok. ok;
  outside = λ x h. refl;
  bndcfgu = refl;
  bndstatus = refl;
  xcr0 = refl;
  osxsave = refl;
  rsp = refl;
}

pub Keeps-trans : {m m' m'' : Machine} → Keeps m m' → Keeps m' m'' → Keeps m m''
Keeps-trans {m} {m'} {m''} k k' = record {
  machine = λ ok. k'.machine (k.machine ok);
  outside = λ x h. ground (arith, k'.outside x, k.outside x);
  bndcfgu = k'.bndcfgu ∙ k.bndcfgu;
  bndstatus = k'.bndstatus ∙ k.bndstatus;
  xcr0 = k'.xcr0 ∙ k.xcr0;
  osxsave = k'.osxsave ∙ k.osxsave;
  rsp = k'.rsp ∙ k.rsp;
}

pub Keeps-mpx_on : {m m' : Machine} → Keeps m m' → mpx_on m' ≡ mpx_on m
unfolding mpx_on
Keeps-mpx_on k = rw k.bndcfgu

pub Keeps-IsReady : {m m' : Machine} → Keeps m m' → IsReady m → IsReady m'
Keeps-IsReady k r = record { machine = k.machine r.machine; on = Keeps-mpx_on k ∙ r.on }

pub byte_of-lt : (v d : ℕ) → byte_of v d < 256
unfolding byte_of
byte_of-lt v d = omega arith

pub scrubbed-IsMachine : {m : Machine} → IsMachine m → IsMachine (scrubbed m)
unfolding scrubbed scrub
scrubbed-IsMachine ok = record {
  lb_fits = ok.lb_fits;
  ub_fits = ok.ub_fits;
  bytes = λ x. ground (arith, ok.bytes x);
}

pub Keeps-scrubbed : (m : Machine) → Keeps m (scrubbed m)
unfolding scrubbed scrub
Keeps-scrubbed m = record {
  machine = scrubbed-IsMachine;
  outside = λ x h. ground arith;
  bndcfgu = refl;
  bndstatus = refl;
  xcr0 = refl;
  osxsave = refl;
  rsp = refl;
}

-- The two stores of a spill, whatever they store.
spill_mem : Machine → ℕ → ℕ → Machine
spill_mem m v w = record m {
  mem = store64 (store64 m.mem (slot 0x80 m) v) (add64 (slot 0x80 m) 8) w;
}

Keeps-spill_mem : (m : Machine) (v w : ℕ) → Keeps m (spill_mem m v w)
unfolding spill_mem store64
Keeps-spill_mem m v w = record {
  machine = λ ok. record {
    lb_fits = ok.lb_fits;
    ub_fits = ok.ub_fits;
    bytes = λ x. ground (
      arith,
      ok.bytes x,
      byte_of-lt v (sub64 x (slot 0x80 m)),
      byte_of-lt w (sub64 x (add64 (slot 0x80 m) 8)),
    );
  };
  outside = λ x h. ground arith;
  bndcfgu = refl;
  bndstatus = refl;
  xcr0 = refl;
  osxsave = refl;
  rsp = refl;
}

pub Keeps-spilled : (n : BndName) (m : Machine) → Keeps m (spilled n m)
unfolding spilled bndmov spill_mem
Keeps-spilled n m = elim (Bool-cases (mpx_on m)) [
  | inl on ↦ rw on (Keeps-spill_mem m (m.bnds n).lb (m.bnds n).ub)
  | inr off ↦ rw off (Keeps-refl m)
]

pub KeepsAll-spilled : (n : BndName) (m : Machine) → KeepsAll m (spilled n m)
unfolding spilled bndmov
KeepsAll-spilled n m = record {
  keeps = Keeps-spilled n m;
  bnds = ground arith;
  stderr = ground arith;
}

pub KeepsAll-trans : {m m' m'' : Machine} → KeepsAll m m' → KeepsAll m' m'' → KeepsAll m m''
KeepsAll-trans k k' = record {
  keeps = Keeps-trans k.keeps k'.keeps;
  bnds = k'.bnds ∙ k.bnds;
  stderr = k'.stderr ∙ k.stderr;
}

pub Keeps-with_bound :
    (n : BndName) (lower upper : ℕ) (m : Machine)
    → IsWord lower
    → Keeps m (with_bound n lower upper m)
unfolding with_bound
Keeps-with_bound n lower upper m fits = record {
  machine = λ ok. record {
    lb_fits = λ k. ground (arith, ok.lb_fits k);
    ub_fits = λ k. ground (arith, ok.ub_fits k);
    bytes = ok.bytes;
  };
  outside = λ x h. refl;
  bndcfgu = refl;
  bndstatus = refl;
  xcr0 = refl;
  osxsave = refl;
  rsp = refl;
}

pub Keeps-stderr : (lines : List Message) (m : Machine) → Keeps m (record m { stderr = lines })
Keeps-stderr lines m = record {
  machine = λ ok. record { lb_fits = ok.lb_fits; ub_fits = ok.ub_fits; bytes = ok.bytes };
  outside = λ x h. refl;
  bndcfgu = refl;
  bndstatus = refl;
  xcr0 = refl;
  osxsave = refl;
  rsp = refl;
}
