-- ===== src/Base/Words.antt =====
-- uint64_t arithmetic on native numbers: what wraps is reduced modulo 2 ^ 64, and the modulus is
-- added before a subtraction, since `-` stops at 0.
use Prim.Native.Nat.{ℕ, ◌+◌, ◌-◌, ◌%◌, ◌^◌, ◌<◌}
use mathlib.Core.Path.{◌≡◌}
use mathlib.Core.Bool.{Bool, not}
use native.Mathlib.Omega.{arith}
use simplex.Base.Tests.{◌==◌}

abbrev pub u32 : ℕ → ℕ
u32 n = n % 2 ^ 32

abbrev pub u64 : ℕ → ℕ
u64 n = n % 2 ^ 64

abbrev pub add64 : ℕ → ℕ → ℕ
add64 a b = (a + b) % 2 ^ 64

abbrev pub sub64 : ℕ → ℕ → ℕ
sub64 a b = (a + 2 ^ 64 - b) % 2 ^ 64

-- `~a` on a uint64_t.
abbrev pub not64 : ℕ → ℕ
not64 a = 2 ^ 64 - 1 - a

-- The truth value of a number in a C condition.
abbrev pub truth : ℕ → Bool
truth n = not (n == 0)

abbrev pub IsWord : ℕ → Type 0
IsWord n = n < 2 ^ 64

-- `bndmk` adds the index back that the caller took the base from.
pub add64-sub64 : (a b : ℕ) → IsWord a → IsWord b → add64 a (sub64 b a) ≡ b
add64-sub64 a b ha hb = omega arith
