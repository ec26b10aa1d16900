-- ===== src/Runtime/Masks.antt =====
-- The bit masks of XSAVE and XRSTOR: single bits of a conjunction, and requests that are enabled.
use Prim.Native.Nat.{bit_and-bitwise}
use simplex.Base.{
  ℕ, zero, suc, ◌/◌, ◌≤◌, ◌≡◌, refl, ap, sym, ◌∙◌, arith, Bool, true, false, ◌&&◌, bit_and,
  bit_and-zero, bit_and-halves,
}
use simplex.Runtime.Xsave.{bit}

-- A conjunction, halved.
bit_and-half : (p q : ℕ) → bit_and p q / 2 ≡ bit_and (p / 2) (q / 2)
bit_and-half p q = omega (arith, bit_and-halves p q)

bit_and-eighths : (p q : ℕ) → bit_and p q / 2 / 2 / 2 ≡ bit_and (p / 2 / 2 / 2) (q / 2 / 2 / 2)
bit_and-eighths p q =
    ap (λ (t : ℕ). t / 2 / 2) (bit_and-half p q)
    ∙ ap (λ (t : ℕ). t / 2) (bit_and-half (p / 2) (q / 2))
    ∙ bit_and-half (p / 2 / 2) (q / 2 / 2)

pub bit3-bit_and : (p q : ℕ) → bit 3 (bit_and p q) ≡ (bit 3 p && bit 3 q)
bit3-bit_and p q =
    ground (arith, bit_and-eighths p q, bit_and-halves (p / 2 / 2 / 2) (q / 2 / 2 / 2))

pub bit4-bit_and : (p q : ℕ) → bit 4 (bit_and p q) ≡ (bit 4 p && bit 4 q)
bit4-bit_and p q = ground (
  arith,
  bit_and-eighths p q,
  bit_and-half (p / 2 / 2 / 2) (q / 2 / 2 / 2),
  bit_and-halves (p / 2 / 2 / 2 / 2) (q / 2 / 2 / 2 / 2),
)

pub zero_and : (q : ℕ) → bit_and 0 q ≡ 0
zero_and q = bit_and-bitwise 0 q

pub and_true : (b : Bool) → (b && true) ≡ b
and_true true = refl
and_true false = refl

-- What is requested is enabled.
pub absorb_below :
    (n a x k : ℕ) → a ≤ n → bit_and a (bit_and x (bit_and a k)) ≡ bit_and x (bit_and a k)
absorb_below n zero x k h =
    zero_and (bit_and x (bit_and 0 k)) ∙ sym (ap (bit_and x) (zero_and k) ∙ bit_and-zero x)
absorb_below zero (suc a) x k h = absurd (omega arith)
absorb_below (suc n) (suc a) x k h =
    let halved =
      bit_and-half x (bit_and (suc a) k) ∙ ap (bit_and (x / 2)) (bit_and-half (suc a) k) in
    omega (
      arith,
      halved,
      bit_and-halves (suc a) (bit_and x (bit_and (suc a) k)),
      ap (bit_and (suc a / 2)) halved,
      absorb_below n (suc a / 2) (x / 2) (k / 2) (omega arith),
      bit_and-halves x (bit_and (suc a) k),
      bit_and-halves (suc a) k,
    )
