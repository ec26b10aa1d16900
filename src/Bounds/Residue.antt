-- ===== src/Bounds/Residue.antt =====
-- What the calls leave on the stack below %rsp.
use simplex.Base.{ℕ, ◌≡◌, refl, ◌∙◌, arith, ltb, if◌then◌else◌, sub64}
use simplex.Machine.{BndName, Machine, slot, bndmk}
use simplex.Machine.Bytes.{load64}
use simplex.Machine.Stores.{scrub}
use simplex.Bounds.Bndreg.{encode}
use simplex.Bounds.Blocks.{IsMachine, scrubbed, load_lower, load_upper}
use simplex.Bounds.Reads.{getbndl-encode, getbndu-encode, getbnd-encode, qgetbndl-encode}
use simplex.Bounds.Frame.{IsReady}
use simplex.Bounds.Writes.{half_of_on, setbndl_case, setbndu_case}
use simplex.Bounds.Api.{Call, get_lower, get_upper, get_both, quick_get, set_lower, set_upper, exec}

-- `bndmk` writes no memory, and with MPX off no register.
mem-bndmk : (n : BndName) (base index : ℕ) (m : Machine) → (bndmk n base index m).1.mem ≡ m.mem
unfolding bndmk
mem-bndmk n base index m = ground arith

-- The calls that clear their stack slots.
pub data Clears (n : BndName) : Call → Type 0 where
  by_get_lower : Clears n (get_lower (encode n))
  by_get_upper : Clears n (get_upper (encode n))
  by_get_both : Clears n (get_both (encode n))
  by_set_lower : (val : ℕ) → Clears n (set_lower (encode n) val)
  by_set_upper : (val : ℕ) → Clears n (set_upper (encode n) val)

mem-scrubbed :
    (m : Machine) (x : ℕ)
    → (scrubbed m).mem x ≡ (if ltb (sub64 x (slot 0x80 m)) 16 then 0 else m.mem x)
unfolding scrubbed scrub
mem-scrubbed m x = refl

-- On a machine of 64-bit registers and bytes, with MPX on or off, the accessors that sanitize and
-- the mutators that read the other half first, called on one of the four registers, leave 16 zero
-- bytes at -0x80(%rsp) and every other byte as it was.
pub Clears-mem :
    {n : BndName} {c : Call} {m : Machine}
    → Clears n c
    → IsMachine m
    → (x : ℕ) → (exec c m).1.mem x ≡ (if ltb (sub64 x (slot 0x80 m)) 16 then 0 else m.mem x)
unfolding exec
Clears-mem {n} {m} by_get_lower ok x = rw (getbndl-encode ok n) (mem-scrubbed m x)
Clears-mem {n} {m} by_get_upper ok x = rw (getbndu-encode ok n) (mem-scrubbed m x)
Clears-mem {n} {m} by_get_both ok x = rw (getbnd-encode ok n) (mem-scrubbed m x)
Clears-mem {n} {m} (by_set_lower val) ok x =
    rw (setbndl_case ok n val, mem-bndmk) (mem-scrubbed m x)
Clears-mem {n} {m} (by_set_upper val) ok x =
    rw (setbndu_case ok n val, mem-bndmk) (mem-scrubbed m x)

-- On a machine of 64-bit registers and bytes with MPX on, `qgetbndl` of a register leaves both
-- words of it on the stack, at -0x80(%rsp) and -0x78(%rsp).
quick_get-mem :
    (n : BndName) {m : Machine}
    → IsReady m
    → let mem = (exec (quick_get (encode n)) m).1.mem in
      (load64 mem (slot 0x80 m) ≡ (m.bnds n).lb) × (load64 mem (slot 0x78 m) ≡ (m.bnds n).ub)
unfolding exec
quick_get-mem n {m} r = (
  rw (qgetbndl-encode r.machine n) (load_lower n r.machine ∙ (half_of_on n m r.on).0),
  rw (qgetbndl-encode r.machine n) (load_upper n r.machine ∙ (half_of_on n m r.on).1),
)
