-- ===== src/Bounds/Blocks.antt =====
-- What the `__asm__` blocks of the accessors do: the value that comes back through the stack, and
-- the two words that they leave or clear at -0x80(%rsp).
use simplex.Base.{
  ℕ, ◌<◌, ◌≡◌, ap, ◌∙◌, inl, inr, arith, Bool-cases, if◌then◌else◌, add64, not64, IsWord,
}
use simplex.Machine.{BndName, Machine, ◌>>=◌, mpx_on, slot, bndmov, mov_load, andq}
use simplex.Machine.Bytes.{Memory, store64, load64}
use simplex.Machine.Stores.{scrub, scrubs, load64-store64_self, load64-store64_apart}
use simplex.Bounds.Accessors.{
  spill_lower, spill_upper, spill_both, sanitize, return_val, return_inverted, return_joined,
  join128,
}

-- Registers hold 64 bits, and memory holds bytes.
pub record IsMachine (m : Machine) : Type 0 where
  pub lb_fits : (n : BndName) → IsWord (m.bnds n).lb
  pub ub_fits : (n : BndName) → IsWord (m.bnds n).ub
  pub bytes : (x : ℕ) → m.mem x < 256

-- The machine with the 16 bytes from -0x80(%rsp) cleared, and nothing else changed.
unfoldable pub scrubbed : Machine → Machine
scrubbed m = record m { mem = scrub m.mem (slot 0x80 m) }

-- The machine with register `n` spilled to those bytes.
unfoldable pub spilled : BndName → Machine → Machine
spilled n m = (bndmov n 0x80 m).1

-- What the code reads as the halves of register `n`: with MPX off, what lies on the stack.
unfoldable pub lower_half : BndName → Machine → ℕ
lower_half n m = if mpx_on m then (m.bnds n).lb else load64 m.mem (slot 0x80 m)

unfoldable pub upper_half : BndName → Machine → ℕ
upper_half n m = if mpx_on m then (m.bnds n).ub else load64 m.mem (slot 0x78 m)

-- The two slots of the code are the two words of one register.
slots : (m : Machine) → slot 0x78 m ≡ add64 (slot 0x80 m) 8
slots m = omega arith

module _ (n : BndName) {m : Machine} (ok : IsMachine m) where
  abbrev stored : Memory
  stored = store64 m.mem (slot 0x80 m) (m.bnds n).lb

  pub load_lower : load64 (spilled n m).mem (slot 0x80 m) ≡ lower_half n m
  unfolding spilled bndmov lower_half
  load_lower = elim (Bool-cases (mpx_on m)) [
    | inl on ↦ rw on (
        load64-store64_apart stored (add64 (slot 0x80 m) 8) (slot 0x80 m) (m.bnds n).ub
          (omega arith) (omega arith) (omega arith)
        ∙ load64-store64_self m.mem (slot 0x80 m) (m.bnds n).lb (omega arith) (ok.lb_fits n))
    | inr off ↦ rw off
  ]

  pub load_upper : load64 (spilled n m).mem (slot 0x78 m) ≡ upper_half n m
  unfolding spilled bndmov upper_half
  load_upper = elim (Bool-cases (mpx_on m)) [
    | inl on ↦
        rw (on, slots m)
          (load64-store64_self stored (add64 (slot 0x80 m) 8) (m.bnds n).ub (omega arith)
            (ok.ub_fits n))
    | inr off ↦ rw off
  ]

  slot-spilled : (d : ℕ) → slot d (spilled n m) ≡ slot d m
  unfolding spilled bndmov
  slot-spilled d = ground arith

  read_lower : load64 (spilled n m).mem (slot 0x80 (spilled n m)) ≡ lower_half n m
  read_lower = ap (load64 (spilled n m).mem) (slot-spilled 0x80) ∙ load_lower

  read_upper : load64 (spilled n m).mem (slot 0x78 (spilled n m)) ≡ upper_half n m
  read_upper = ap (load64 (spilled n m).mem) (slot-spilled 0x78) ∙ load_upper

  pub spill_lower_lem : spill_lower n m ≡ (lower_half n m, spilled n m)
  unfolding spill_lower mov_load spilled
  spill_lower_lem = λ i. (read_lower i, spilled n m)

  pub spill_upper_lem : spill_upper n m ≡ (upper_half n m, spilled n m)
  unfolding spill_upper mov_load spilled
  spill_upper_lem = λ i. (read_upper i, spilled n m)

  pub spill_both_lem : spill_both n m ≡ ((upper_half n m, lower_half n m), spilled n m)
  unfolding spill_both mov_load spilled
  spill_both_lem = λ i. ((read_upper i, read_lower i), spilled n m)

sanitize-scrubbed : (m : Machine) → sanitize m ≡ (tt, scrubbed m)
unfolding sanitize andq scrubbed
sanitize-scrubbed m = simp (scrubs, slots m)

scrubbed-spilled : (n : BndName) (m : Machine) → scrubbed (spilled n m) ≡ scrubbed m
unfolding spilled bndmov scrubbed
scrubbed-spilled n m = elim (Bool-cases (mpx_on m)) [
  | inl on ↦ rw on (simp scrubs)
  | inr off ↦ rw off
]

sanitize-spilled : (n : BndName) (m : Machine) → sanitize (spilled n m) ≡ (tt, scrubbed m)
sanitize-spilled n m = sanitize-scrubbed (spilled n m) ∙ ap (λ k. (tt, k)) (scrubbed-spilled n m)

-- The block and what the accessor does after its `switch`.
module _ (n : BndName) {m : Machine} (ok : IsMachine m) where
  pub lower_case : (spill_lower n >>= return_val) m ≡ (lower_half n m, scrubbed m)
  lower_case = rw (spill_lower_lem n ok, sanitize-spilled)

  pub upper_case : (spill_upper n >>= return_inverted) m ≡ (not64 (upper_half n m), scrubbed m)
  upper_case = rw (spill_upper_lem n ok, sanitize-spilled)

  pub both_case :
      (spill_both n >>= return_joined) m ≡ (join128 (upper_half n m) (lower_half n m), scrubbed m)
  both_case = rw (spill_both_lem n ok, sanitize-spilled)
