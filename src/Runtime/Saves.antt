-- ===== src/Runtime/Saves.antt =====
-- `xsave_state` of simplex/lib/mpxrt.c, and what comes back from the area that it fills.
use Prim.Native.Nat.{bit_or-bitwise}
use simplex.Base.{
  ℕ, ◌+◌, ◌*◌, ◌/◌, ◌^◌, ◌≡◌, refl, ap, sym, ◌∙◌, fun_ext, arith, Bool, true, false, ◌&&◌, not,
  bit_and, bit_or, ◌==◌, u32, not64, if◌then◌else◌,
}
use simplex.Machine.{BndName, bnd0, bnd1, bnd2, bnd3, BndFile, Machine}
use simplex.Runtime.Masks.{bit3-bit_and, bit4-bit_and, zero_and, and_true, absorb_below}
use simplex.Runtime.Xsave.{
  Words, XsaveArea, zeroed, invalid_opcode, Outcome, ok, fault, and_then, bit, file_of, init_bnds,
  restored, header_ok, xrstor, xrstor_state,
}

-- The layout of component 3.
abbrev words_of : BndFile → Words → Words
words_of f old i =
    if i == 0
    then (f bnd0).lb
    else if i == 1
    then (f bnd0).ub
    else if i == 2
    then (f bnd1).lb
    else if i == 3
    then (f bnd1).ub
    else if i == 4
    then (f bnd2).lb
    else if i == 5
    then (f bnd2).ub
    else if i == 6
    then (f bnd3).lb
    else if i == 7
    then (f bnd3).ub
    else old i

-- XSAVE writes the components that are requested and enabled, and marks those of them that the
-- processor has in use, which is its own account: a parameter.
module _ (in_use : Machine → ℕ) where
  unfoldable pub xsave : XsaveArea → ℕ → ℕ → Machine → Outcome XsaveArea
  xsave fx eax edx m =
      let mask = eax + edx * 2 ^ 32 in
      let requested = bit_and m.xcr0 mask in
      let bv = fx.xsave_hdr.xstate_bv in
      let bv' = bit_or (bit_and bv (not64 requested)) (bit_and (in_use m) requested) in
      if not m.osxsave
      then fault invalid_opcode
      else ok
          (record fx {
            xsave_hdr = record (fx.xsave_hdr) { xstate_bv = bv' };
            bndregs =
                if bit 3 requested
                then record { bndregs = words_of m.bnds fx.bndregs.bndregs }
                else fx.bndregs;
            bndcsr =
                if bit 4 requested
                then record { cfg_reg_u = m.bndcfgu; status_reg = m.bndstatus }
                else fx.bndcsr;
          })
          m

  unfoldable pub xsave_state : XsaveArea → ℕ → Machine → Outcome XsaveArea
  unfolding xsave
  xsave_state fx mask = xsave fx (u32 mask) (u32 (mask / 2 ^ 32))

-- Processors may take a component out of use only while it is in its initial configuration.
pub record IsHonest (in_use : Machine → ℕ) : Type 0 where
  pub bndregs_out : (m : Machine) → bit 3 (in_use m) ≡ false → m.bnds ≡ init_bnds
  pub bndcsr_out : (m : Machine) → bit 4 (in_use m) ≡ false → (m.bndcfgu ≡ 0) × (m.bndstatus ≡ 0)

file_of-words_of : (f : BndFile) (old : Words) → file_of (words_of f old) ≡ f
file_of-words_of f old = fun_ext same_at
  where
    same_at : (n : BndName) → file_of (words_of f old) n ≡ f n
    same_at bnd0 = refl
    same_at bnd1 = refl
    same_at bnd2 = refl
    same_at bnd3 = refl

module _ (in_use : Machine → ℕ) (m : Machine) (os : m.osxsave ≡ true) (has3 : bit 3 m.xcr0 ≡ true)
    (has4 : bit 4 m.xcr0 ≡ true) where
  abbrev requested : ℕ
  requested = bit_and m.xcr0 0x18

  -- The area that is filled from zeros.
  saved : XsaveArea
  saved = record zeroed {
    xsave_hdr = record {
      xstate_bv = bit_and (in_use m) requested;
      reserved1 = λ _. 0;
      reserved2 = λ _. 0;
    };
    bndregs = record { bndregs = words_of m.bnds (λ _. 0) };
    bndcsr = record { cfg_reg_u = m.bndcfgu; status_reg = m.bndstatus };
  }

  no_bits :
      bit_or (bit_and 0 (not64 requested)) (bit_and (in_use m) requested)
      ≡ bit_and (in_use m) requested
  no_bits =
      ap (λ t. bit_or t (bit_and (in_use m) requested)) (zero_and (not64 requested))
      ∙ bit_or-bitwise 0 _

  requested3 : bit 3 requested ≡ true
  requested3 = bit3-bit_and m.xcr0 0x18 ∙ ap (λ b. b && true) has3

  requested4 : bit 4 requested ≡ true
  requested4 = bit4-bit_and m.xcr0 0x18 ∙ ap (λ b. b && true) has4

  xsave_state-saved : xsave_state in_use zeroed 0x18 m ≡ ok saved m
  unfolding xsave_state xsave saved
  xsave_state-saved = simp (os, requested3, requested4, no_bits)

  header-ok : header_ok (saved.xsave_hdr) m.xcr0 ≡ true
  unfolding saved
  header-ok = ground (arith, absorb_below m.xcr0 m.xcr0 (in_use m) 0x18 (omega arith))

  marked3 : bit 3 (saved.xsave_hdr.xstate_bv) ≡ bit 3 (in_use m)
  unfolding saved
  marked3 =
      bit3-bit_and (in_use m) requested
      ∙ ap (λ b. bit 3 (in_use m) && b) requested3
      ∙ and_true (bit 3 (in_use m))

  marked4 : bit 4 (saved.xsave_hdr.xstate_bv) ≡ bit 4 (in_use m)
  unfolding saved
  marked4 =
      bit4-bit_and (in_use m) requested
      ∙ ap (λ b. bit 4 (in_use m) && b) requested4
      ∙ and_true (bit 4 (in_use m))

-- A component comes back, also when it was not marked.
restored-whole :
    {A : Type 0} (marked : Bool) (from_area whole initial old : A)
    → from_area ≡ whole
    → (marked ≡ false → whole ≡ initial)
    → restored true marked from_area initial old ≡ whole
restored-whole true from_area whole initial old same out = same
restored-whole false from_area whole initial old same out = sym (out refl)

-- The machine `m` with the MPX state of `m'`.
abbrev pub with_mpx_of : Machine → Machine → Machine
with_mpx_of m' m = record m { bnds = m'.bnds; bndcfgu = m'.bndcfgu; bndstatus = m'.bndstatus }

xrstor_state-ok :
    (fx : XsaveArea) (k : Machine)
    → k.osxsave ≡ true
    → bit 3 k.xcr0 ≡ true
    → bit 4 k.xcr0 ≡ true
    → header_ok fx.xsave_hdr k.xcr0 ≡ true
    → xrstor_state fx 0x18 k
      ≡ ok tt (record k {
        bnds =
            restored true
              (bit 3 fx.xsave_hdr.xstate_bv)
              (file_of fx.bndregs.bndregs)
              init_bnds
              k.bnds;
        bndcfgu = restored true (bit 4 fx.xsave_hdr.xstate_bv) fx.bndcsr.cfg_reg_u 0 k.bndcfgu;
        bndstatus = restored true (bit 4 fx.xsave_hdr.xstate_bv) fx.bndcsr.status_reg 0 k.bndstatus;
      })
unfolding xrstor_state xrstor
xrstor_state-ok fx k os has3 has4 hdr = simp (os, has3, has4, hdr)

-- Under an operating system that has enabled the two MPX components, an area that `xsave_state` has
-- filled from zeros with the mask 0x18 brings back, by `xrstor_state` with that mask and whatever has
-- happened in between, the bounds registers, BNDCFGU and BNDSTATUS, and changes nothing else, provided that
-- the processor takes a component out of use only in its initial configuration.
pub xrstor_state-xsave_state :
    (in_use : Machine → ℕ) (m later : Machine)
    → IsHonest in_use
    → m.osxsave ≡ true
    → bit 3 m.xcr0 ≡ true
    → bit 4 m.xcr0 ≡ true
    → later.osxsave ≡ true
    → later.xcr0 ≡ m.xcr0
    → and_then (xsave_state in_use zeroed 0x18 m) (λ fx _. xrstor_state fx 0x18 later)
      ≡ ok tt (with_mpx_of m later)
unfolding saved
xrstor_state-xsave_state in_use m later honest os has3 has4 os' same =
    let fx = saved in_use m os has3 has4 in
    let bnds_back =
      restored-whole (bit 3 fx.xsave_hdr.xstate_bv) (file_of fx.bndregs.bndregs) m.bnds init_bnds
        later.bnds (file_of-words_of m.bnds (λ _. 0))
        (λ e. honest.bndregs_out m (sym (marked3 in_use m os has3 has4) ∙ e)) in
    let cfg_back =
      restored-whole (bit 4 fx.xsave_hdr.xstate_bv) m.bndcfgu m.bndcfgu 0 later.bndcfgu refl
        (λ e. (honest.bndcsr_out m (sym (marked4 in_use m os has3 has4) ∙ e)).0) in
    let status_back =
      restored-whole (bit 4 fx.xsave_hdr.xstate_bv) m.bndstatus m.bndstatus 0 later.bndstatus refl
        (λ e. (honest.bndcsr_out m (sym (marked4 in_use m os has3 has4) ∙ e)).1) in
    ap (λ o. and_then o (λ a _. xrstor_state a 0x18 later))
      (xsave_state-saved in_use m os has3 has4)
    ∙ xrstor_state-ok fx later os' (ap (bit 3) same ∙ has3) (ap (bit 4) same ∙ has4)
        (ap (header_ok fx.xsave_hdr) same ∙ header-ok in_use m os has3 has4)
    ∙ (λ i.
        ok tt
          (record later { bnds = bnds_back i; bndcfgu = cfg_back i; bndstatus = status_back i }))
