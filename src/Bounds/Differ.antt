-- ===== src/Bounds/Differ.antt =====
-- Machines that differ in one bounds register, and what the instructions make of them.
use simplex.Base.{
  ℕ, ◌≡◌, ◌≢◌, ◌⊎◌, refl, ap, ap₂, inl, inr, true, false, Bool-cases, sub64, add64, not64,
}
use simplex.Machine.{
  BndName, bnd0, bnd1, bnd2, bnd3, BndReg, Machine, same, put, mpx_on, slot, bndmk, bndmov,
}
use simplex.Machine.Bytes.{load64, store64}
use simplex.Machine.Stores.{scrub}
use simplex.Bounds.Bndreg.{encode}
use simplex.Bounds.Blocks.{scrubbed, spilled, lower_half, upper_half}

-- Two machines that differ at most in register `n`.
pub record Differ (n : BndName) (m m' : Machine) : Type 0 where
  pub others : (k : BndName) → same n k ≡ false → m'.bnds k ≡ m.bnds k
  pub bndcfgu : m'.bndcfgu ≡ m.bndcfgu
  pub bndstatus : m'.bndstatus ≡ m.bndstatus
  pub xcr0 : m'.xcr0 ≡ m.xcr0
  pub osxsave : m'.osxsave ≡ m.osxsave
  pub rsp : m'.rsp ≡ m.rsp
  pub mem : m'.mem ≡ m.mem
  pub stderr : m'.stderr ≡ m.stderr

pub apart_names : (n k : BndName) → encode k ≢ encode n → same n k ≡ false
apart_names bnd0 bnd0 h = absurd (h refl)
apart_names bnd1 bnd1 h = absurd (h refl)
apart_names bnd2 bnd2 h = absurd (h refl)
apart_names bnd3 bnd3 h = absurd (h refl)
apart_names bnd0 _ h = refl
apart_names _ _ h = refl

same_name : (n k : BndName) → same n k ≡ true → n ≡ k
same_name bnd0 bnd0 h = refl
same_name bnd1 bnd1 h = refl
same_name bnd2 bnd2 h = refl
same_name bnd3 bnd3 h = refl
same_name bnd0 _ h = cc
same_name _ _ h = cc

module _ {n : BndName} {m m' : Machine} (d : Differ n m m') where
  same_slot : (k : ℕ) → slot k m' ≡ slot k m
  same_slot k = ap (λ (r : ℕ). sub64 r k) d.rsp

  same_mode : mpx_on m' ≡ mpx_on m
  unfolding mpx_on
  same_mode = rw d.bndcfgu

  same_load : (k : ℕ) → load64 m'.mem (slot k m') ≡ load64 m.mem (slot k m)
  same_load k = ap₂ load64 d.mem (same_slot k)

  pub same_lower : (k : BndName) → same n k ≡ false → lower_half k m' ≡ lower_half k m
  unfolding lower_half
  same_lower k h = rw (same_mode, d.others k h, same_load 0x80)

  pub same_upper : (k : BndName) → same n k ≡ false → upper_half k m' ≡ upper_half k m
  unfolding upper_half
  same_upper k h = rw (same_mode, d.others k h, same_load 0x78)

  pub scrubbed-Differ : Differ n (scrubbed m) (scrubbed m')
  unfolding scrubbed
  scrubbed-Differ = record {
    others = d.others;
    bndcfgu = d.bndcfgu;
    bndstatus = d.bndstatus;
    xcr0 = d.xcr0;
    osxsave = d.osxsave;
    rsp = d.rsp;
    mem = ap₂ scrub d.mem (same_slot 0x80);
    stderr = d.stderr;
  }

  stored-Differ :
      (k : BndName)
      → same n k ≡ false
      → Differ n
          (record m {
            mem =
                store64
                  (store64 m.mem (slot 0x80 m) (m.bnds k).lb)
                  (add64 (slot 0x80 m) 8)
                  (m.bnds k).ub;
          })
          (record m' {
            mem =
                store64
                  (store64 m'.mem (slot 0x80 m') (m'.bnds k).lb)
                  (add64 (slot 0x80 m') 8)
                  (m'.bnds k).ub;
          })
  stored-Differ k h = record {
    others = d.others;
    bndcfgu = d.bndcfgu;
    bndstatus = d.bndstatus;
    xcr0 = d.xcr0;
    osxsave = d.osxsave;
    rsp = d.rsp;
    mem = λ i.
        store64 (store64 (d.mem i) (sub64 (d.rsp i) 0x80) (d.others k h i).lb)
          (add64 (sub64 (d.rsp i) 0x80) 8) (d.others k h i).ub;
    stderr = d.stderr;
  }

  pub spilled-Differ : (k : BndName) → same n k ≡ false → Differ n (spilled k m) (spilled k m')
  unfolding spilled bndmov
  spilled-Differ k h = elim (Bool-cases (mpx_on m)) [
    | inl on ↦ rw (same_mode, on) (stored-Differ k h)
    | inr off ↦ rw (same_mode, off) d
  ]

  put-other :
      (k : BndName) {r r' : BndReg}
      → (same n k ≡ true) ⊎ (r' ≡ r)
      → (j : BndName) → same n j ≡ false
      → put k r' m'.bnds j ≡ put k r m.bnds j
  put-other k h j other = elim (Bool-cases (same k j)) [
    | inr apart ↦ rw apart (d.others j other)
    | inl is ↦ rw is (elim h [
      | inl self ↦
          let e : same n j ≡ same k j = ap (λ (x : BndName). same x j) (same_name n k self) in cc
      | inr e ↦ e
    ])
  ]

  pub bndmk-Differ :
      (k : BndName) {base base' index index' : ℕ}
      → (same n k ≡ true) ⊎ ((base' ≡ base) × (index' ≡ index))
      → Differ n (bndmk k base index m).1 (bndmk k base' index' m').1
  unfolding bndmk
  bndmk-Differ k {base} {base'} {index} {index'} h = elim (Bool-cases (mpx_on m)) [
    | inl on ↦
        rw (same_mode, on)
          (record {
            others = put-other k values;
            bndcfgu = d.bndcfgu;
            bndstatus = d.bndstatus;
            xcr0 = d.xcr0;
            osxsave = d.osxsave;
            rsp = d.rsp;
            mem = d.mem;
            stderr = d.stderr;
          })
    | inr off ↦ rw (same_mode, off) d
  ]
    where
      made : ℕ → ℕ → BndReg
      made base index = record { lb = base; ub = not64 (add64 base index) }

      values : (same n k ≡ true) ⊎ (made base' index' ≡ made base index)
      values = elim h [ inl self ↦ inl self | inr e ↦ inr (λ i. made (e.0 i) (e.1 i)) ]
