-- ===== src/Benchmark.antt =====
-- The two helpers of simplex/eval/benchmark/benchmark.cpp that prepare buffers. `rand` is a parameter: the
-- number that its k-th call returns, which is not negative. So is `memcpy` of the C library.

pub mod Fixtures
pub mod Bodies
pub mod Rivals
pub mod Filled
pub mod Prepared
pub mod Comparison
pub mod Alive
pub mod Runs
pub mod Spared
pub mod Footprint
pub mod LoadStore
pub mod Traverses
pub mod TraversalFixture
pub mod Traversals
mod Examples
use native.Mathlib.Nat.{mod-lt}
use simplex.Base.{
  ℕ, zero, suc, Option, none, some, ◌+◌, ◌-◌, ◌*◌, ◌%◌, ◌^◌, ◌≤◌, ◌<◌, ◌≡◌, ◌≢◌, ◌⊎◌, refl, ◌∙◌, ap,
  arith, ◌==◌, ltb, not, ◌&&◌, if◌then◌else◌, add64, sub64, IsWord,
}
use simplex.Machine.Bytes.{Memory}
use simplex.SimplexString.Copies.{copied, copied-inside, copied-outside}
use simplex.SimplexString.Libgcc.{write}

-- `MB`.
abbrev pub kb : ℕ
kb = 1024

abbrev pub mb : ℕ
mb = 1048576

module _ (rand : ℕ → ℕ) where
  -- `for (c = 0; c < (sz - 1); c++) ptr[c] = (rand() % 127) + 1;` over the rounds left, from `c` on.
  unfoldable pub randomize_loop : ℕ → ℕ → ℕ → Memory → Memory
  unfolding write
  randomize_loop zero ptr c mem = mem
  randomize_loop (suc rounds) ptr c mem =
      randomize_loop rounds ptr (add64 c 1) (write mem (add64 ptr c) (rand c % 127 + 1))

  -- Where `sz` is 0, `sz - 1` wraps.
  unfoldable pub randomize : ℕ → ℕ → Memory → Memory
  unfolding randomize_loop write
  randomize ptr sz mem =
      let rounds = sub64 sz 1 in
      if ptr == 0 then mem else write (randomize_loop rounds ptr 0 mem) (add64 ptr rounds) 0

  randomize_loop_lem :
      (rounds ptr c : ℕ) (mem : Memory)
      → IsWord ptr
      → c + rounds < 2 ^ 64
      → (x : ℕ) → IsWord x
      → randomize_loop rounds ptr c mem x ≡ (
          let d = sub64 x ptr in
          if not (ltb d c) && ltb d (c + rounds) then rand d % 127 + 1 else mem x)
  unfolding randomize_loop write
  randomize_loop_lem zero ptr c mem hp hc x hx = ground arith
  randomize_loop_lem (suc rounds) ptr c mem hp hc x hx = ground (
    arith,
    randomize_loop_lem rounds ptr (add64 c 1) (write mem (add64 ptr c) (rand c % 127 + 1)) hp
        (omega arith) x hx,
    same_rand,
  )
    where
      same_rand : c ≡ sub64 x ptr → rand c ≡ rand (sub64 x ptr)
      same_rand e = ap rand e

  -- What `randomize` writes: bytes from 1 to 127, and a null byte behind them.
  abbrev pub random_string : ℕ → ℕ → ℕ
  random_string sz d = if d == sz - 1 then 0 else rand d % 127 + 1

  -- `randomize` on a buffer at a 64-bit pointer that is not null, with a 64-bit size of at least 1,
  -- writes exactly that many bytes, the last of them 0 and the others from 1 to 127 as the random
  -- numbers say, and changes no other byte.
  pub randomize_lem :
      (ptr sz : ℕ) (mem : Memory)
      → IsWord ptr
      → IsWord sz
      → ptr ≢ 0
      → 1 ≤ sz
      → (x : ℕ) → IsWord x
      → randomize ptr sz mem x
        ≡ (if ltb (sub64 x ptr) sz then random_string sz (sub64 x ptr) else mem x)
  unfolding randomize write
  randomize_lem ptr sz mem hp hs nonnull some_byte x hx =
      ground (arith, randomize_loop_lem (sub64 sz 1) ptr 0 mem hp (omega arith) x hx)

-- What the C library documents of `memcpy`: regions that end within memory and lie apart are copied.
pub record IsMemcpy (memcpy : ℕ → ℕ → ℕ → Memory → Memory) : Type 0 where
  pub copies :
      (d s len : ℕ) (mem : Memory)
      → IsWord len
      → IsWord d
      → IsWord s
      → d + len ≤ 2 ^ 64
      → s + len ≤ 2 ^ 64
      → (d + len ≤ s) ⊎ (s + len ≤ d)
      → (x : ℕ) → IsWord x
      → memcpy d s len mem x ≡ copied mem d s len x

module _ (random : ℕ) (memcpy : ℕ → ℕ → ℕ → Memory → Memory) where
  -- `none` is the trap of a division by 0. `~` on a byte takes it from 255.
  unfoldable pub corrupt : ℕ → ℕ → ℕ → Memory → Option Memory
  unfolding write
  corrupt dst src sz mem =
      let mem' = if not (src == 0) && not (dst == 0) then memcpy dst src (4 * mb) mem else mem in
      if dst == 0
      then some mem'
      else if sz == 0
      then none
      else let a = add64 dst (random % sz) in some (write mem' a (255 - mem' a))

-- What `corrupt` leaves: the 4 MB of the source in the destination, byte `random % sz` inverted, and every
-- other byte as it was.
pub record IsCorrupted (random dst src sz : ℕ) (mem mem' : Memory) : Type 0 where
  pub inside :
      (i : ℕ)
      → i < 4 * mb
      → mem' (add64 dst i)
        ≡ (if i == random % sz then 255 - mem (add64 src i) else mem (add64 src i))
  pub outside : (x : ℕ) → IsWord x → 4 * mb ≤ sub64 x dst → mem' x ≡ mem x

-- With a `memcpy` as the C library documents it, on buffers of 4 MB at 64-bit pointers that are not
-- null, end within memory and lie apart, with a size from 1 byte to 4 MB, `corrupt` does not trap,
-- copies all 4 MB, inverts byte `random % sz` of the destination and changes nothing else.
pub corrupt-IsCorrupted :
    (random : ℕ) (memcpy : ℕ → ℕ → ℕ → Memory → Memory)
    → IsMemcpy memcpy
    → (dst src sz : ℕ) (mem : Memory) → dst ≢ 0
    → src ≢ 0
    → 1 ≤ sz
    → sz ≤ 4 * mb
    → IsWord dst
    → IsWord src
    → dst + 4 * mb ≤ 2 ^ 64
    → src + 4 * mb ≤ 2 ^ 64
    → (dst + 4 * mb ≤ src) ⊎ (src + 4 * mb ≤ dst)
    → (mem' : Memory) × (corrupt random memcpy dst src sz mem ≡ some mem')
      × IsCorrupted random dst src sz mem mem'
unfolding corrupt write copied
corrupt-IsCorrupted random memcpy documented dst src sz mem hd hs lo hi wd ws fd fs apart =
    let after = memcpy dst src (4 * mb) mem in
    let a = add64 dst (random % sz) in
    (
      write after a (255 - after a),
      ground arith,
      record {
        inside =
            λ i l. ground (arith, from_source i l, from_source (random % sz) below, same_byte i);
        outside = λ x hx l. ground (arith, elsewhere x hx l, below);
      },
    )
  where
    below : random % sz < 4 * mb
    below = omega (arith, mod-lt random lo)

    from_source :
        (i : ℕ) → i < 4 * mb → memcpy dst src (4 * mb) mem (add64 dst i) ≡ mem (add64 src i)
    from_source i l =
        documented.copies dst src (4 * mb) mem (omega arith) wd ws fd fs apart (add64 dst i)
          (omega arith)
        ∙ copied-inside mem dst src (4 * mb) (add64 dst i) (omega arith)
        ∙ ap mem (omega arith)

    elsewhere : (x : ℕ) → IsWord x → 4 * mb ≤ sub64 x dst → memcpy dst src (4 * mb) mem x ≡ mem x
    elsewhere x hx l =
        documented.copies dst src (4 * mb) mem (omega arith) wd ws fd fs apart x hx
        ∙ copied-outside mem dst src (4 * mb) x l

    same_byte : (i : ℕ) → i ≡ random % sz → mem (add64 src i) ≡ mem (add64 src (random % sz))
    same_byte i e = ap (λ (k : ℕ). mem (add64 src k)) e
