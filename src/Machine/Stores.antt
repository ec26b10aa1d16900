-- ===== src/Machine/Stores.antt =====
-- Laws of loads and stores: what a store does to a load at the same and at another place.
use simplex.Base.{
  ℕ, ◌+◌, ◌-◌, ◌*◌, ◌^◌, ◌≤◌, ◌<◌, ◌≡◌, arith, ltb, if◌then◌else◌, add64, sub64, IsWord, fun_ext,
  bit_and-zero,
}
use simplex.Machine.Bytes.{Memory, byte_of, store64, load64}

byte_of-zero : (d : ℕ) → byte_of 0 d ≡ 0
unfolding byte_of
byte_of-zero d = ground arith

-- The eight bytes of a word make it up again.
bytes_of_word :
    (v : ℕ)
    → IsWord v
    → byte_of v 0
        + byte_of v 1 * 256 ^ 1
        + byte_of v 2 * 256 ^ 2
        + byte_of v 3 * 256 ^ 3
        + byte_of v 4 * 256 ^ 4
        + byte_of v 5 * 256 ^ 5
        + byte_of v 6 * 256 ^ 6
        + byte_of v 7 * 256 ^ 7
      ≡ v
unfolding byte_of
bytes_of_word v h = omega arith

store64-at :
    (mem : Memory) (a v i : ℕ) → IsWord a → i < 8 → store64 mem a v (add64 a i) ≡ byte_of v i
unfolding store64
store64-at mem a v i ha hi = ground arith

pub store64-off : (mem : Memory) (a v x : ℕ) → 8 ≤ sub64 x a → store64 mem a v x ≡ mem x
unfolding store64
store64-off mem a v x h = ground arith

-- A load reads eight bytes and no other.
pub load64-agree :
    (mem mem' : Memory) (a : ℕ)
    → ((i : ℕ) → i < 8 → mem (add64 a i) ≡ mem' (add64 a i))
    → load64 mem a ≡ load64 mem' a
unfolding load64
load64-agree mem mem' a same =
    omega (arith, same 0, same 1, same 2, same 3, same 4, same 5, same 6, same 7)

pub load64-store64_self :
    (mem : Memory) (a v : ℕ) → IsWord a → IsWord v → load64 (store64 mem a v) a ≡ v
unfolding load64
load64-store64_self mem a v ha hv = omega (
  arith,
  store64-at mem a v 0 ha,
  store64-at mem a v 1 ha,
  store64-at mem a v 2 ha,
  store64-at mem a v 3 ha,
  store64-at mem a v 4 ha,
  store64-at mem a v 5 ha,
  store64-at mem a v 6 ha,
  store64-at mem a v 7 ha,
  bytes_of_word v hv,
)

-- A store next to the word that is loaded, on either side, does not show.
pub load64-store64_apart :
    (mem : Memory) (a b v : ℕ)
    → IsWord a
    → 8 ≤ sub64 b a
    → sub64 b a ≤ 2 ^ 64 - 8
    → load64 (store64 mem a v) b ≡ load64 mem b
load64-store64_apart mem a b v ha lo hi =
    load64-agree (store64 mem a v) mem b (λ i h. store64-off mem a v (add64 b i) (omega arith))

-- Memory with the 16 bytes from `a` set to zero.
unfoldable pub scrub : Memory → ℕ → Memory
scrub mem a x = if ltb (sub64 x a) 16 then 0 else mem x

pub scrub-store64_low : (mem : Memory) (a v : ℕ) → scrub (store64 mem a v) a ≡ scrub mem a
unfolding scrub store64
scrub-store64_low mem a v = fun_ext λ x. ground arith

pub scrub-store64_high :
    (mem : Memory) (a v : ℕ) → scrub (store64 mem (add64 a 8) v) a ≡ scrub mem a
unfolding scrub store64
scrub-store64_high mem a v = fun_ext λ x. ground arith

pub store64-zero_pair :
    (mem : Memory) (a : ℕ) → store64 (store64 mem (add64 a 8) 0) a 0 ≡ scrub mem a
unfolding scrub store64
store64-zero_pair mem a =
    fun_ext λ x. ground (arith, byte_of-zero (sub64 x a), byte_of-zero (sub64 x (add64 a 8)))

-- How the stores of the accessors vanish under a scrub.
pub ruleset scrubs = (bit_and-zero, scrub-store64_low, scrub-store64_high, store64-zero_pair)

pub load64-scrub_at :
    (mem : Memory) (a d : ℕ) → IsWord a → d ≤ 8 → load64 (scrub mem a) (add64 a d) ≡ 0
unfolding load64
load64-scrub_at mem a d h l =
    omega (
      arith,
      zero_at 0,
      zero_at 1,
      zero_at 2,
      zero_at 3,
      zero_at 4,
      zero_at 5,
      zero_at 6,
      zero_at 7,
    )
  where
    zero_at : (i : ℕ) → i < 8 → scrub mem a (add64 (add64 a d) i) ≡ 0
    zero_at i k = unfold scrub in ground arith
