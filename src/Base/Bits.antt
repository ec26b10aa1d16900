-- ===== src/Base/Bits.antt =====
-- The bitwise operations of C at variables: what `&`, `|` and `^` do with a single bit, with a mask
-- of low bits and with a shifted field.
use Prim.Native.Nat.{
  ℕ, zero, suc, ◌+◌, ◌-◌, ◌*◌, ◌/◌, ◌%◌, ◌^◌, ◌≤◌, ◌<◌, min, max, digits, bitwise, bit_and, bit_or,
  bit_xor, differ, bit_and-bitwise, bit_or-bitwise, bit_xor-bitwise,
}
use mathlib.Core.Path.{◌≡◌, refl, sym, ap, ◌∙◌}
use native.Mathlib.Nat.{pow-suc, one-le-pow}
use native.Mathlib.Omega.{arith}

-- Any operation that works digit by digit works field by field.
module _ (op f : ℕ → ℕ → ℕ)
    (halves : (a b : ℕ) → op a b ≡ op (a / 2) (b / 2) * 2 + f (a % 2) (b % 2)) where
  op_split :
      (k q q' r r' : ℕ)
      → r < 2 ^ k
      → r' < 2 ^ k
      → op (q * 2 ^ k + r) (q' * 2 ^ k + r') ≡ op q q' * 2 ^ k + op r r'
  op_split zero q q' r r' h h' = ground (arith, halves 0 0)
  op_split (suc k) q q' r r' h h' = ground (
    arith,
    pow-suc 2 k,
    ap (λ (t : ℕ). q * t) (pow-suc 2 k),
    ap (λ (t : ℕ). q' * t) (pow-suc 2 k),
    ap (λ (t : ℕ). op q q' * t) (pow-suc 2 k),
    halves (q * 2 ^ suc k + r) (q' * 2 ^ suc k + r'),
    halves r r',
    op_split k q q' (r / 2) (r' / 2),
  )

-- The recursion on binary digits that the native operations stand for, freed of its fuel.
module _ (z : ℕ → ℕ) (f : ℕ → ℕ → ℕ) where
  digits-zero : (n b : ℕ) → digits z f n 0 b ≡ z b
  digits-zero zero b = refl
  digits-zero (suc n) b = refl

  any_fuel : (n m a b : ℕ) → a ≤ n → a ≤ m → digits z f n a b ≡ digits z f m a b
  any_fuel n m zero b p q = digits-zero n b ∙ sym (digits-zero m b)
  any_fuel zero m (suc a) b p q = absurd (omega arith)
  any_fuel (suc n) zero (suc a) b p q = absurd (omega arith)
  any_fuel (suc n) (suc m) (suc a) b p q =
      omega (arith, any_fuel n m (suc a / 2) (b / 2) (omega arith) (omega arith))

  bitwise-halves :
      ((b : ℕ) → z b ≡ z (b / 2) * 2 + f 0 (b % 2))
      → (a b : ℕ) → bitwise z f a b ≡ bitwise z f (a / 2) (b / 2) * 2 + f (a % 2) (b % 2)
  bitwise-halves at_zero zero b = at_zero b
  bitwise-halves at_zero (suc a) b =
      omega (arith, any_fuel a (suc a / 2) (suc a / 2) (b / 2) (omega arith) (omega arith))

pub bit_and-halves : (a b : ℕ) → bit_and a b ≡ bit_and (a / 2) (b / 2) * 2 + min (a % 2) (b % 2)
bit_and-halves a b =
    rw (bit_and-bitwise a b, bit_and-bitwise (a / 2) (b / 2))
      (bitwise-halves (λ _. 0) min (λ c. omega arith) a b)

bit_or-halves : (a b : ℕ) → bit_or a b ≡ bit_or (a / 2) (b / 2) * 2 + max (a % 2) (b % 2)
bit_or-halves a b =
    rw (bit_or-bitwise a b, bit_or-bitwise (a / 2) (b / 2))
      (bitwise-halves (λ c. c) max (λ c. omega arith) a b)

bit_xor-halves : (a b : ℕ) → bit_xor a b ≡ bit_xor (a / 2) (b / 2) * 2 + differ (a % 2) (b % 2)
bit_xor-halves a b =
    rw (bit_xor-bitwise a b, bit_xor-bitwise (a / 2) (b / 2))
      (bitwise-halves (λ c. c) differ (λ c. omega arith) a b)

differ-zero : (d : ℕ) → d < 2 → differ d 0 ≡ d
differ-zero zero h = refl
differ-zero (suc zero) h = refl
differ-zero (suc (suc d)) h = absurd (omega arith)

differ-one : (d : ℕ) → d < 2 → differ d 1 ≡ 1 - d
differ-one zero h = refl
differ-one (suc zero) h = refl
differ-one (suc (suc d)) h = absurd (omega arith)

-- Each lemma up to a bound, then without it.
bit_and-zero_below : (n a : ℕ) → a ≤ n → bit_and a 0 ≡ 0
bit_and-zero_below n zero h = refl
bit_and-zero_below zero (suc a) h = absurd (omega arith)
bit_and-zero_below (suc n) (suc a) h =
    omega (arith, bit_and-halves (suc a) 0, bit_and-zero_below n (suc a / 2) (omega arith))

pub bit_and-zero : (a : ℕ) → bit_and a 0 ≡ 0
bit_and-zero a = bit_and-zero_below a a (omega arith)

bit_or-zero_below : (n a : ℕ) → a ≤ n → bit_or a 0 ≡ a
bit_or-zero_below n zero h = refl
bit_or-zero_below zero (suc a) h = absurd (omega arith)
bit_or-zero_below (suc n) (suc a) h =
    omega (arith, bit_or-halves (suc a) 0, bit_or-zero_below n (suc a / 2) (omega arith))

bit_or-zero : (a : ℕ) → bit_or a 0 ≡ a
bit_or-zero a = bit_or-zero_below a a (omega arith)

bit_xor-zero_below : (n a : ℕ) → a ≤ n → bit_xor a 0 ≡ a
bit_xor-zero_below n zero h = refl
bit_xor-zero_below zero (suc a) h = absurd (omega arith)
bit_xor-zero_below (suc n) (suc a) h =
    ground
      (arith, bit_xor-halves (suc a) 0, bit_xor-zero_below n (suc a / 2), differ-zero (suc a % 2))

bit_xor-zero : (a : ℕ) → bit_xor a 0 ≡ a
bit_xor-zero a = bit_xor-zero_below a a (omega arith)

bit_and-one : (a : ℕ) → bit_and a 1 ≡ a % 2
bit_and-one a = omega (arith, bit_and-halves a 1, bit_and-zero (a / 2))

bit_and-mask_below : (k r : ℕ) → r < 2 ^ k → bit_and r (2 ^ k - 1) ≡ r
bit_and-mask_below zero r h = omega (arith, bit_and-zero r)
bit_and-mask_below (suc k) r h = ground (
  arith,
  pow-suc 2 k,
  one-le-pow k 2,
  bit_and-halves r (2 ^ suc k - 1),
  bit_and-mask_below k (r / 2) (omega (arith, pow-suc 2 k)),
)

bit_xor-mask_below : (k r : ℕ) → r < 2 ^ k → bit_xor r (2 ^ k - 1) ≡ 2 ^ k - 1 - r
bit_xor-mask_below zero r h = ground (arith, bit_xor-zero r)
bit_xor-mask_below (suc k) r h = ground (
  arith,
  pow-suc 2 k,
  one-le-pow k 2,
  bit_xor-halves r (2 ^ suc k - 1),
  bit_xor-mask_below k (r / 2) (omega (arith, pow-suc 2 k)),
  differ-one (r % 2),
)

-- `a & (2^k - 1)` keeps the low k bits.
pub bit_and-mask : (k a : ℕ) → bit_and a (2 ^ k - 1) ≡ a % 2 ^ k
bit_and-mask k a = ground (
  arith,
  one-le-pow k 2,
  op_split bit_and min bit_and-halves k (a / 2 ^ k) 0 (a % 2 ^ k) (2 ^ k - 1),
  bit_and-zero (a / 2 ^ k),
  bit_and-mask_below k (a % 2 ^ k),
)

-- `a & ((2^j - 1) << k)` keeps j bits from bit k on, in place.
pub bit_and-high : (k j a : ℕ) → bit_and a ((2 ^ j - 1) * 2 ^ k) ≡ a / 2 ^ k % 2 ^ j * 2 ^ k
bit_and-high k j a = ground (
  arith,
  one-le-pow k 2,
  op_split bit_and min bit_and-halves k (a / 2 ^ k) (2 ^ j - 1) (a % 2 ^ k) 0,
  bit_and-mask j (a / 2 ^ k),
  bit_and-zero (a % 2 ^ k),
)

-- `a & (1 << k)` is bit k of `a`, in place.
pub bit_and-bit : (k a : ℕ) → bit_and a (2 ^ k) ≡ a / 2 ^ k % 2 * 2 ^ k
bit_and-bit k a = ground (
  arith,
  one-le-pow k 2,
  op_split bit_and min bit_and-halves k (a / 2 ^ k) 1 (a % 2 ^ k) 0,
  bit_and-one (a / 2 ^ k),
  bit_and-zero (a % 2 ^ k),
)

-- `low | (high << k)` is a sum where `low` has k bits.
pub bit_or-shifted : (k low high : ℕ) → low < 2 ^ k → bit_or low (high * 2 ^ k) ≡ low + high * 2 ^ k
bit_or-shifted k low high h = ground (
  arith,
  op_split bit_or max bit_or-halves k 0 high low 0,
  bit_or-zero low,
  bit_or-bitwise 0 high,
)

-- `a ^ (2^k - 1)` inverts the low k bits and leaves the others.
pub bit_xor-mask : (k a : ℕ) → bit_xor a (2 ^ k - 1) ≡ a / 2 ^ k * 2 ^ k + (2 ^ k - 1 - a % 2 ^ k)
bit_xor-mask k a = ground (
  arith,
  one-le-pow k 2,
  op_split bit_xor differ bit_xor-halves k (a / 2 ^ k) 0 (a % 2 ^ k) (2 ^ k - 1),
  bit_xor-zero (a / 2 ^ k),
  bit_xor-mask_below k (a % 2 ^ k),
)
