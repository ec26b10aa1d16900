-- ===== src/SimplexString/Searches.antt =====
-- The other three functions whose pointers stand in BND1 and BND2.
use simplex.Base.{
  ℕ, zero, suc, ◌%◌, ◌≤◌, ◌≡◌, refl, ap, ap₂, ◌∙◌, ◌^◌, arith, ltb, if◌then◌else◌, add64, sub64,
  IsWord,
}
use simplex.Machine.{BndName, bnd1, bnd2, BndFile, Machine, slot, mpx_on}
use simplex.Machine.Bytes.{Memory}
use simplex.Bounds.Blocks.{spilled}
use simplex.Bounds.Frame.{IsReady, Keeps, KeepsAll, Keeps-spilled, KeepsAll-spilled, KeepsAll-trans}
use simplex.Bounds.Accessors.{qgetbndl}
use simplex.SimplexString.Libgcc.{write, fill_loop}
use simplex.SimplexString.Scans.{
  compare_bytes, bytes_at, bytes_at-agree, memcmp_loop_lem, FirstAt, FirstAt-agree, memchr_loop_lem,
  fill_loop_lem,
}
use simplex.SimplexString.Pointers.{
  AreBytes, write-AreBytes, qgetbndl-ready, bnds-spilled, spilled-IsReady, IsClear,
}
use simplex.SimplexString.Hidden.{simplex_memcmp, simplex_memset, simplex_memchr}

module _ {m : Machine} (r : IsReady m) where
  lower-spilled : (n k : BndName) → ((spilled n m).bnds k).lb ≡ (m.bnds k).lb
  lower-spilled n k = ap (λ (b : BndFile). (b k).lb) (bnds-spilled n m)

  abbrev both : Machine
  both = spilled bnd2 (spilled bnd1 m)

  both-KeepsAll : KeepsAll m both
  both-KeepsAll = KeepsAll-trans (KeepsAll-spilled bnd1 m) (KeepsAll-spilled bnd2 (spilled bnd1 m))

  both-Keeps : Keeps m both
  both-Keeps = both-KeepsAll.keeps

  second : qgetbndl 2 (spilled bnd1 m) ≡ ((m.bnds bnd2).lb, both)
  second =
      qgetbndl-ready bnd2 (spilled-IsReady bnd1 r) ∙ ap (λ v. (v, both)) (lower-spilled bnd1 bnd2)

-- On a machine of 64-bit registers and bytes with MPX on, `simplex_memcmp` compares the regions at the
-- pointers in BND1 and BND2 in dictionary order and changes nothing of the machine, the bounds registers
-- and stderr included, but the 16 bytes of its stack slot, if neither region meets that slot.
pub simplex_memcmp_lem :
    (count : ℕ) {m : Machine}
    → IsReady m
    → IsClear bnd1 count m
    → IsClear bnd2 count m
    → ((simplex_memcmp count m).0
        ≡ compare_bytes
            (bytes_at count (m.bnds bnd1).lb m.mem)
            (bytes_at count (m.bnds bnd2).lb m.mem))
      × KeepsAll m (simplex_memcmp count m).1
unfolding simplex_memcmp
simplex_memcmp_lem count {m} r c1 c2 =
    rw (qgetbndl-ready bnd1 r, second r)
      (
        memcmp_loop_lem count (m.bnds bnd1).lb (m.bnds bnd2).lb (both r).mem
              (r.machine.lb_fits bnd1) (r.machine.lb_fits bnd2)
            ∙ ap₂ compare_bytes
                (bytes_at-agree count (m.bnds bnd1).lb (both r).mem m.mem
                  (λ i l. (both-Keeps r).outside _ (c1 i l)) (r.machine.lb_fits bnd1))
                (bytes_at-agree count (m.bnds bnd2).lb (both r).mem m.mem
                  (λ i l. (both-Keeps r).outside _ (c2 i l)) (r.machine.lb_fits bnd2)),
        both-KeepsAll r,
      )

-- On a machine of 64-bit registers and bytes with MPX on, `simplex_memchr` finds the first of `length`
-- bytes from the pointer in BND1 that equals `c`, or returns 0, and changes nothing of the machine, the
-- bounds registers and stderr included, but the 16 bytes of its stack slot, if the region does not meet
-- that slot.
pub simplex_memchr_lem :
    (c length : ℕ) {m : Machine}
    → IsReady m
    → IsClear bnd1 length m
    → FirstAt (m.bnds bnd1).lb c m.mem length (simplex_memchr c length m).0
      × KeepsAll m (simplex_memchr c length m).1
unfolding simplex_memchr
simplex_memchr_lem c length {m} r c1 = rw (qgetbndl-ready bnd1 r) (
  FirstAt-agree m.mem (r.machine.lb_fits bnd1) (λ i l. (Keeps-spilled bnd1 m).outside _ (c1 i l))
      (memchr_loop_lem length (m.bnds bnd1).lb c (spilled bnd1 m).mem (r.machine.lb_fits bnd1)),
  KeepsAll-spilled bnd1 m,
)

pub fill_loop-AreBytes :
    (len ptr val : ℕ) (mem : Memory) → AreBytes mem → AreBytes (fill_loop len ptr val mem)
unfolding fill_loop
fill_loop-AreBytes zero ptr val mem h = h
fill_loop-AreBytes (suc len) ptr val mem h =
    fill_loop-AreBytes len (add64 ptr 1) val (write mem ptr (val % 2 ^ 8))
      (write-AreBytes mem ptr (val % 2 ^ 8) (omega arith) h)

-- What a hidden fill returns, and what it leaves outside its stack slot.
pub record IsFilled (val len : ℕ) (m : Machine) (after : ℕ × Machine) : Type 0 where
  pub returned : after.0 ≡ (m.bnds bnd1).lb
  pub memory :
      (x : ℕ)
      → IsWord x
      → 16 ≤ sub64 x (slot 0x80 m)
      → after.1.mem x ≡ (if ltb (sub64 x (m.bnds bnd1).lb) len then val % 2 ^ 8 else m.mem x)

module _ (val len : ℕ) {m : Machine} (r : IsReady m) where
  abbrev filled : Machine
  filled = record (spilled bnd1 m) { mem = fill_loop len (m.bnds bnd1).lb val (spilled bnd1 m).mem }

  filled-IsReady : IsReady filled
  unfolding mpx_on
  filled-IsReady =
      let k = spilled-IsReady bnd1 r in
      record {
        machine = record {
          lb_fits = k.machine.lb_fits;
          ub_fits = k.machine.ub_fits;
          bytes = fill_loop-AreBytes len (m.bnds bnd1).lb val (spilled bnd1 m).mem k.machine.bytes;
        };
        on = k.on;
      }

  last : qgetbndl 1 filled ≡ ((m.bnds bnd1).lb, spilled bnd1 filled)
  last =
      qgetbndl-ready bnd1 filled-IsReady
      ∙ ap (λ v. (v, spilled bnd1 filled)) (lower-spilled r bnd1 bnd1)

  filled-at :
      IsWord len
      → (x : ℕ) → IsWord x
      → 16 ≤ sub64 x (slot 0x80 m)
      → filled.mem x ≡ (if ltb (sub64 x (m.bnds bnd1).lb) len then val % 2 ^ 8 else m.mem x)
  filled-at hl x hx apart =
      fill_loop_lem len (m.bnds bnd1).lb val (spilled bnd1 m).mem hl (r.machine.lb_fits bnd1) x hx
      ∙ ap (λ v. if ltb (sub64 x (m.bnds bnd1).lb) len then val % 2 ^ 8 else v)
          ((Keeps-spilled bnd1 m).outside x apart)

  same_slot : slot 0x80 filled ≡ slot 0x80 m
  same_slot = ap (λ (a : ℕ). sub64 a 0x80) (Keeps-spilled bnd1 m).rsp

-- On a machine of 64-bit registers and bytes with MPX on, `simplex_memset` with a 64-bit length
-- returns the pointer in BND1, sets each of the `len` bytes from there to the low byte of `val`
-- except those in its stack slot, and changes no other byte outside that slot.
pub simplex_memset-IsFilled :
    (val len : ℕ) {m : Machine}
    → IsReady m
    → IsWord len
    → IsFilled val len m (simplex_memset val len m)
unfolding simplex_memset
simplex_memset-IsFilled val len {m} r hl =
    rw (qgetbndl-ready bnd1 r, last val len r)
      (record {
        returned = refl;
        memory = λ x hx apart.
            (Keeps-spilled bnd1 (filled val len r)).outside x (rw (same_slot val len r) apart)
            ∙ filled-at val len r hl x hx apart;
      })
