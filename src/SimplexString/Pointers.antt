-- ===== src/SimplexString/Pointers.antt =====
-- The copies whose pointers stand in BND1 and BND2, seen from outside the stack slot through which
-- `qgetbndl` reads them.
use simplex.Base.{
  ℕ, zero, suc, ◌+◌, ◌≤◌, ◌<◌, ◌≡◌, ◌⊎◌, refl, ap, ◌∙◌, ◌^◌, arith, add64, sub64, IsWord,
}
use simplex.Machine.{BndName, BndFile, bnd1, bnd2, Machine, M, ◌>>=◌, ◌>>◌, slot, bndmov, mpx_on}
use simplex.Machine.Bytes.{Memory}
use simplex.Bounds.Bndreg.{encode}
use simplex.Bounds.Blocks.{spilled}
use simplex.Bounds.Reads.{qgetbndl-encode}
use simplex.Bounds.Writes.{half_of_on}
use simplex.Bounds.Frame.{IsReady, Keeps, Keeps-IsReady, Keeps-spilled, Keeps-trans}
use simplex.Bounds.Accessors.{qgetbndl}
use simplex.SimplexString.Libgcc.{write, forward_loop, backward_loop, move}
use simplex.SimplexString.Copies.{copied, move_lem, forward_loop-copied}
use simplex.SimplexString.Hidden.{writes, simplex_memcpy, simplex_memmove}

abbrev pub AreBytes : Memory → Type 0
AreBytes mem = (x : ℕ) → mem x < 256

pub write-AreBytes : (mem : Memory) (a v : ℕ) → v < 256 → AreBytes mem → AreBytes (write mem a v)
unfolding write
write-AreBytes mem a v hv h x = ground (arith, h x)

pub forward_loop-AreBytes :
    (len d s : ℕ) (mem : Memory) → AreBytes mem → AreBytes (forward_loop len d s mem)
unfolding forward_loop
forward_loop-AreBytes zero d s mem h = h
forward_loop-AreBytes (suc len) d s mem h =
    forward_loop-AreBytes len (add64 d 1) (add64 s 1) (write mem d (mem s))
      (write-AreBytes mem d (mem s) (h s) h)

backward_loop-AreBytes :
    (len d s : ℕ) (mem : Memory) → AreBytes mem → AreBytes (backward_loop len d s mem)
unfolding backward_loop
backward_loop-AreBytes zero d s mem h = h
backward_loop-AreBytes (suc len) d s mem h =
    backward_loop-AreBytes len (sub64 d 1) (sub64 s 1) (write mem d (mem s))
      (write-AreBytes mem d (mem s) (h s) h)

pub move-AreBytes : (d s len : ℕ) (mem : Memory) → AreBytes mem → AreBytes (move d s len mem)
unfolding move
move-AreBytes d s len mem h = ground (
  arith,
  forward_loop-AreBytes len d s mem h,
  backward_loop-AreBytes len (add64 d (sub64 len 1)) (add64 s (sub64 len 1)) mem h,
)

-- `qgetbndl` on a ready machine.
pub qgetbndl-ready :
    (n : BndName) {m : Machine} → IsReady m → qgetbndl (encode n) m ≡ ((m.bnds n).lb, spilled n m)
qgetbndl-ready n {m} r =
    qgetbndl-encode r.machine n ∙ ap (λ v. (v, spilled n m)) (half_of_on n m r.on).0

pub bnds-spilled : (n : BndName) (m : Machine) → (spilled n m).bnds ≡ m.bnds
unfolding spilled bndmov
bnds-spilled n m = ground arith

pub spilled-IsReady : (n : BndName) {m : Machine} → IsReady m → IsReady (spilled n m)
spilled-IsReady n {m} r = Keeps-IsReady (Keeps-spilled n m) r

-- What a hidden copy returns, and what it leaves outside its stack slot.
pub record IsCopied (len : ℕ) (m : Machine) (after : ℕ × Machine) : Type 0 where
  pub returned : after.0 ≡ (m.bnds bnd1).lb
  pub memory :
      (x : ℕ)
      → IsWord x
      → 16 ≤ sub64 x (slot 0x80 m)
      → after.1.mem x ≡ copied m.mem (m.bnds bnd1).lb (m.bnds bnd2).lb len x

-- The region at the pointer in register `n` does not meet the slot.
abbrev pub IsClear : BndName → ℕ → Machine → Type 0
IsClear n len m = (i : ℕ) → i < len → 16 ≤ sub64 (add64 (m.bnds n).lb i) (slot 0x80 m)

copied-agree :
    (mem mem' : Memory) (d s len x : ℕ)
    → mem x ≡ mem' x
    → ((i : ℕ) → i < len → mem (add64 s i) ≡ mem' (add64 s i))
    → copied mem d s len x ≡ copied mem' d s len x
unfolding copied
copied-agree mem mem' d s len x here there = ground (arith, there (sub64 x d))

-- Any copy between the two pointers.
module _ (f : ℕ → ℕ → Memory → Memory)
    (bytes : (d s : ℕ) (mem : Memory) → AreBytes mem → AreBytes (f d s mem)) where
  hidden : M ℕ
  hidden = do d ← qgetbndl 1; s ← qgetbndl 2; writes (f d s); qgetbndl 1

  module _ {m : Machine} (r : IsReady m) where
    abbrev read : Machine
    read = spilled bnd2 (spilled bnd1 m)

    abbrev wrote : Machine
    wrote = record read { mem = f (m.bnds bnd1).lb (m.bnds bnd2).lb read.mem }

    bnds-read : read.bnds ≡ m.bnds
    bnds-read = bnds-spilled bnd2 (spilled bnd1 m) ∙ bnds-spilled bnd1 m

    read-Keeps : Keeps m read
    read-Keeps = Keeps-trans (Keeps-spilled bnd1 m) (Keeps-spilled bnd2 (spilled bnd1 m))

    wrote-IsReady : IsReady wrote
    unfolding mpx_on
    wrote-IsReady =
        let k = Keeps-IsReady read-Keeps r in
        record {
          machine = record {
            lb_fits = k.machine.lb_fits;
            ub_fits = k.machine.ub_fits;
            bytes = bytes (m.bnds bnd1).lb (m.bnds bnd2).lb read.mem k.machine.bytes;
          };
          on = k.on;
        }

    lower-at : (k : Machine) → k.bnds ≡ m.bnds → (n : BndName) → (k.bnds n).lb ≡ (m.bnds n).lb
    lower-at k e n = ap (λ (b : BndFile). (b n).lb) e

    first_read : qgetbndl 1 m ≡ ((m.bnds bnd1).lb, spilled bnd1 m)
    first_read = qgetbndl-ready bnd1 r

    second_read : qgetbndl 2 (spilled bnd1 m) ≡ ((m.bnds bnd2).lb, read)
    second_read =
        qgetbndl-ready bnd2 (spilled-IsReady bnd1 r)
        ∙ ap (λ v. (v, read)) (lower-at (spilled bnd1 m) (bnds-spilled bnd1 m) bnd2)

    last_read : qgetbndl 1 wrote ≡ ((m.bnds bnd1).lb, spilled bnd1 wrote)
    last_read =
        qgetbndl-ready bnd1 wrote-IsReady
        ∙ ap (λ v. (v, spilled bnd1 wrote)) (lower-at wrote bnds-read bnd1)

    hidden_lem : hidden m ≡ ((m.bnds bnd1).lb, spilled bnd1 wrote)
    unfolding hidden
    hidden_lem = rw (first_read, second_read) last_read

    hidden-IsCopied :
        (len : ℕ)
        → IsClear bnd2 len m
        → ((mem : Memory) (x : ℕ)
            → IsWord x
            → f (m.bnds bnd1).lb (m.bnds bnd2).lb mem x
              ≡ copied mem (m.bnds bnd1).lb (m.bnds bnd2).lb len x)
        → IsCopied len m (hidden m)
    hidden-IsCopied len clear copies = rw hidden_lem (record {
      returned = refl;
      memory = λ x hx apart.
          (Keeps-spilled bnd1 wrote).outside x (rw (same_slot) apart)
          ∙ copies read.mem x hx
          ∙ copied-agree read.mem m.mem (m.bnds bnd1).lb (m.bnds bnd2).lb len x
              (read-Keeps.outside x apart) (λ i h. read-Keeps.outside _ (clear i h));
    })
      where
        same_slot : slot 0x80 wrote ≡ slot 0x80 m
        same_slot = ap (λ (a : ℕ). sub64 a 0x80) read-Keeps.rsp

-- Both regions end within memory.
abbrev pub Fit : ℕ → Machine → Type 0
Fit len m = ((m.bnds bnd1).lb + len ≤ 2 ^ 64) × ((m.bnds bnd2).lb + len ≤ 2 ^ 64)

-- On a machine of 64-bit registers and bytes with MPX on, `simplex_memmove` returns the pointer in
-- BND1 and copies `len` bytes from the pointer in BND2 to it, whatever the overlap, provided that
-- `len` has 64 bits, that both regions end within memory and that the source does not meet the 16
-- bytes at -0x80(%rsp); outside those 16 bytes no other byte changes.
pub simplex_memmove-IsCopied :
    (len : ℕ) {m : Machine}
    → IsReady m
    → IsWord len
    → Fit len m
    → IsClear bnd2 len m
    → IsCopied len m (simplex_memmove len m)
unfolding simplex_memmove hidden
simplex_memmove-IsCopied len {m} r hl fit clear =
    hidden-IsCopied (λ d s. move d s len) (λ d s. move-AreBytes d s len) r len clear
      (λ mem.
        move_lem mem (m.bnds bnd1).lb (m.bnds bnd2).lb len hl (r.machine.lb_fits bnd1)
          (r.machine.lb_fits bnd2) fit.0 fit.1)

-- On a machine of 64-bit registers and bytes with MPX on, `simplex_memcpy` returns the pointer in
-- BND1 and copies `len` bytes from the pointer in BND2 to it, provided that `len` has 64 bits, that
-- both regions end within memory, that the source does not meet the 16 bytes at -0x80(%rsp), and
-- that the destination does not begin inside the source past its first byte; outside those 16 bytes
-- no other byte changes.
pub simplex_memcpy-IsCopied :
    (len : ℕ) {m : Machine}
    → IsReady m
    → IsWord len
    → Fit len m
    → IsClear bnd2 len m
    → ((m.bnds bnd1).lb ≤ (m.bnds bnd2).lb) ⊎ ((m.bnds bnd2).lb + len ≤ (m.bnds bnd1).lb)
    → IsCopied len m (simplex_memcpy len m)
unfolding simplex_memcpy hidden
simplex_memcpy-IsCopied len {m} r hl fit clear order =
    hidden-IsCopied (λ d s. forward_loop len d s) (λ d s. forward_loop-AreBytes len d s) r len clear
      (λ mem x.
        forward_loop-copied mem (m.bnds bnd1).lb (m.bnds bnd2).lb len hl (r.machine.lb_fits bnd1)
          (r.machine.lb_fits bnd2) fit.0 fit.1 order x)
