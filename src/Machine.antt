-- ===== src/Machine.antt =====
-- The part of an x86-64 processor with MPX that the library drives: the instructions of the
-- `__asm__` blocks of simplex/lib/simplex.c and simplex/lib/mpxrt.c, as Intel's manual has them, over
-- one explicit state. With the enable bit of BNDCFGU clear the MPX instructions do nothing. Branches are no
-- instructions of the blocks, and keep the bounds registers while BNDPRESERVE is set.
pub mod Bytes
pub mod Stores
pub mod Samples
use simplex.Base.{
  ℕ, ◌+◌, ◌/◌, ◌%◌, ◌^◌, ◌≡◌, Bool, true, false, String, List, ◌∷◌, bit_and, if◌then◌else◌, ◌==◌,
  add64, sub64, not64,
}
use Bytes.{Memory, store64, load64}

-- The bounds registers, as the operands %bnd0 to %bnd3 name them.
pub data BndName : Type 0 where
  bnd0 bnd1 bnd2 bnd3 : BndName

abbrev pub same : BndName → BndName → Bool
same bnd0 bnd0 = true
same bnd1 bnd1 = true
same bnd2 bnd2 = true
same bnd3 bnd3 = true
same _ _ = false

-- The contents of a bounds register: `ub` holds the one's complement of the upper bound.
pub record BndReg : Type 0 where
  pub lb : ℕ
  pub ub : ℕ

abbrev pub BndFile : Type 0
BndFile = BndName → BndReg

abbrev pub put {ℓ} : {A : Type ℓ} → BndName → A → (BndName → A) → BndName → A
put n v f k = if same n k then v else f k

-- A line on stderr: the function that it names, and the register number.
pub record Message : Type 0 where
  pub caller : String
  pub reg : ℕ

pub record Machine : Type 0 where
  pub bnds : BndFile
  pub bndcfgu : ℕ
  pub bndstatus : ℕ
  pub xcr0 : ℕ
  pub osxsave : Bool
  pub rsp : ℕ
  pub mem : Memory
  pub stderr : List Message

abbrev pub M : Type 0 → Type 0
M A = Machine → A × Machine

abbrev pub pure : {A : Type 0} → A → M A
pure a m = (a, m)

infixl 5 ◌>>=◌ ◌>>◌
abbrev pub ◌>>=◌ : {A B : Type 0} → M A → (A → M B) → M B
◌>>=◌ f k m = let r = f m in k r.0 r.1

abbrev pub ◌>>◌ : {B : Type 0} → M (Unit {0}) → M B → M B
f >> k = f >>= λ _. k

-- Bit 0 of BNDCFGU.
unfoldable pub mpx_on : Machine → Bool
mpx_on m = m.bndcfgu % 2 == 1

-- `-d(%rsp)`.
abbrev pub slot : ℕ → Machine → ℕ
slot d m = sub64 m.rsp d

-- `bndmk (base,index), %n`: the lower bound is the base, and the one's complement of the effective
-- address is stored as the upper bound. `bndmk (base), %n` has index 0.
unfoldable pub bndmk : BndName → ℕ → ℕ → M (Unit {0})
bndmk n base index m = (
  tt,
  if mpx_on m
      then record m { bnds = put n (record { lb = base; ub = not64 (add64 base index) }) m.bnds }
      else m,
)

-- `bndmov %n, -d(%rsp)`: the lower half first, the upper half behind it.
unfoldable pub bndmov : BndName → ℕ → M (Unit {0})
bndmov n d m =
    let r = m.bnds n in
    (
      tt,
      if mpx_on m
          then record m { mem = store64 (store64 m.mem (slot d m) r.lb) (add64 (slot d m) 8) r.ub }
          else m,
    )

-- `mov -d(%rsp), reg`.
unfoldable pub mov_load : ℕ → M ℕ
mov_load d m = (load64 m.mem (slot d m), m)

-- `andq $imm, -d(%rsp)`.
unfoldable pub andq : ℕ → ℕ → M (Unit {0})
andq imm d m =
    (tt, record m { mem = store64 m.mem (slot d m) (bit_and (load64 m.mem (slot d m)) imm) })

-- `fprintf(stderr, "(caller) invalid bounds register: %i\n", reg)`.
unfoldable pub report : String → ℕ → M (Unit {0})
report caller reg m = (tt, record m { stderr = record { caller = caller; reg = reg } ∷ m.stderr })
