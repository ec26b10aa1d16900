-- ===== src/Bounds/Writes.antt =====
-- What each mutator of simplex/lib/simplex.c puts into its register.
use simplex.Base.{
  ℕ, ◌/◌, ◌%◌, ◌^◌, ◌<◌, ◌≡◌, refl, ap, ◌∙◌, arith, true, sub64, not64, IsWord, u64, bit_and-mask,
  add64-sub64, bit_xor-mask, bit_xor, bit_and,
}
use simplex.Machine.{BndName, bnd0, bnd1, bnd2, bnd3, Machine, mpx_on, put, bndmk}
use simplex.Bounds.Bndreg.{encode}
use simplex.Bounds.Mutators.{setbndl, setbndu, setbnd, qsetbndl, lower_mask}
use simplex.Bounds.Blocks.{IsMachine, lower_half, upper_half, scrubbed}
use simplex.Bounds.Reads.{getbndl-encode, getbndu-encode}

-- The machine with register `n` holding `lower` and the one's complement of `upper`.
unfoldable pub with_bound : BndName → ℕ → ℕ → Machine → Machine
with_bound n lower upper m = record m {
  bnds = put n (record { lb = lower; ub = not64 upper }) m.bnds;
}

-- `bndmk` of a base and the distance to an upper bound.
bndmk-distance :
    (n : BndName) (lower upper : ℕ) (m : Machine)
    → mpx_on m ≡ true
    → IsWord lower
    → IsWord upper
    → bndmk n lower (sub64 upper lower) m ≡ (tt, with_bound n lower upper m)
unfolding bndmk with_bound
bndmk-distance n lower upper m on hl hu = rw (on, add64-sub64 lower upper hl hu)

mpx_on-scrubbed : (m : Machine) → mpx_on (scrubbed m) ≡ mpx_on m
unfolding mpx_on scrubbed
mpx_on-scrubbed m = refl

-- `val & LOWER` and `(val ^ LOWER) >> 64` are the two halves of a 128-bit value.
lower_of_mask : (val : ℕ) → u64 (bit_and val lower_mask) ≡ val % 2 ^ 64
lower_of_mask val = omega (arith, bit_and-mask 64 val)

upper_of_mask : (val : ℕ) → u64 (bit_xor val lower_mask / 2 ^ 64) ≡ val / 2 ^ 64 % 2 ^ 64
upper_of_mask val = omega (arith, bit_xor-mask 64 val)

module _ {m : Machine} (ok : IsMachine m) where
  pub setbndl_case :
      (n : BndName) (val : ℕ)
      → setbndl (encode n) val m ≡ bndmk n val (sub64 (not64 (upper_half n m)) val) (scrubbed m)
  unfolding setbndl
  setbndl_case bnd0 val = rw (getbndu-encode ok bnd0)
  setbndl_case bnd1 val = rw (getbndu-encode ok bnd1)
  setbndl_case bnd2 val = rw (getbndu-encode ok bnd2)
  setbndl_case bnd3 val = rw (getbndu-encode ok bnd3)

  pub setbndu_case :
      (n : BndName) (val : ℕ)
      → setbndu (encode n) val m
        ≡ bndmk n (lower_half n m) (sub64 val (lower_half n m)) (scrubbed m)
  unfolding setbndu
  setbndu_case bnd0 val = rw (getbndl-encode ok bnd0)
  setbndu_case bnd1 val = rw (getbndl-encode ok bnd1)
  setbndu_case bnd2 val = rw (getbndl-encode ok bnd2)
  setbndu_case bnd3 val = rw (getbndl-encode ok bnd3)

pub setbnd_case :
    (n : BndName) (val : ℕ) (m : Machine)
    → setbnd (encode n) val m
      ≡ bndmk n (val % 2 ^ 64) (sub64 (val / 2 ^ 64 % 2 ^ 64) (val % 2 ^ 64)) m
unfolding setbnd
setbnd_case bnd0 val m = rw (lower_of_mask val, upper_of_mask val)
setbnd_case bnd1 val m = rw (lower_of_mask val, upper_of_mask val)
setbnd_case bnd2 val m = rw (lower_of_mask val, upper_of_mask val)
setbnd_case bnd3 val m = rw (lower_of_mask val, upper_of_mask val)

pub qsetbndl_case :
    (n : BndName) (val : ℕ) (m : Machine) → qsetbndl (encode n) val m ≡ bndmk n val 0 m
unfolding qsetbndl
qsetbndl_case bnd0 val m = refl
qsetbndl_case bnd1 val m = refl
qsetbndl_case bnd2 val m = refl
qsetbndl_case bnd3 val m = refl

pub half_of_on :
    (n : BndName) (m : Machine)
    → mpx_on m ≡ true
    → (lower_half n m ≡ (m.bnds n).lb) × (upper_half n m ≡ (m.bnds n).ub)
unfolding lower_half upper_half
half_of_on n m on = (rw on, rw on)

bnds-scrubbed : (n : BndName) (m : Machine) → (scrubbed m).bnds n ≡ m.bnds n
unfolding scrubbed
bnds-scrubbed n m = refl

-- With MPX on, a mutator sets the halves that it is given and keeps the others.
module _ (n : BndName) {m : Machine} (ok : IsMachine m) (on : mpx_on m ≡ true) where
  pub setbndl_lem :
      (val : ℕ)
      → IsWord val
      → setbndl (encode n) val m ≡ (tt, with_bound n val (not64 (m.bnds n).ub) (scrubbed m))
  setbndl_lem val fits =
      setbndl_case ok n val
      ∙ rw ((half_of_on n m on).1) (
          bndmk-distance n val (not64 (m.bnds n).ub) (scrubbed m) (mpx_on-scrubbed m ∙ on) fits
            (omega arith))

  pub setbndu_lem :
      (val : ℕ)
      → IsWord val
      → setbndu (encode n) val m ≡ (tt, with_bound n (m.bnds n).lb val (scrubbed m))
  setbndu_lem val fits =
      setbndu_case ok n val
      ∙ rw ((half_of_on n m on).0) (
          bndmk-distance n (m.bnds n).lb val (scrubbed m) (mpx_on-scrubbed m ∙ on) (ok.lb_fits n)
            fits)

module _ (n : BndName) (m : Machine) (on : mpx_on m ≡ true) where
  pub setbnd_lem :
      (val : ℕ)
      → val < 2 ^ 128
      → setbnd (encode n) val m ≡ (tt, with_bound n (val % 2 ^ 64) (val / 2 ^ 64) m)
  setbnd_lem val fits =
      let top : val / 2 ^ 64 % 2 ^ 64 ≡ val / 2 ^ 64 = omega arith in
      setbnd_case n val m
      ∙ rw top (bndmk-distance n (val % 2 ^ 64) (val / 2 ^ 64) m on (omega arith) (omega arith))

  pub qsetbndl_lem :
      (val : ℕ) → IsWord val → qsetbndl (encode n) val m ≡ (tt, with_bound n val val m)
  qsetbndl_lem val fits =
      qsetbndl_case n val m
      ∙ ap (λ i. bndmk n val i m) (omega arith)
      ∙ bndmk-distance n val val m on fits fits
