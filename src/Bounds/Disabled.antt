-- ===== src/Bounds/Disabled.antt =====
-- The calls while MPX is off: the MPX instructions do nothing, so no call changes a register.
use simplex.Base.{ℕ, ◌≡◌, ◌⊎◌, refl, inl, inr, false, List, [], ◌++◌}
use simplex.Machine.{BndName, Machine, Message, mpx_on, bndmk, bndmov}
use simplex.Bounds.Bndreg.{encode}
use simplex.Bounds.Blocks.{IsMachine, scrubbed, spilled}
use simplex.Bounds.Frame.{Keeps, Keeps-refl, Keeps-scrubbed, Keeps-stderr}
use simplex.Bounds.Reads.{getbndl-encode, getbndu-encode, getbnd-encode, qgetbndl-encode}
use simplex.Bounds.Writes.{setbndl_case, setbndu_case, setbnd_case, qsetbndl_case}
use simplex.Bounds.Errors.{reg_of, lines_of, exec_of_invalid, lines_of-encode, lines_of-invalid}
use simplex.Bounds.Calls.{decode_cases}
use simplex.Bounds.Api.{
  Call, get_lower, get_upper, get_both, quick_get, set_lower, set_upper, set_both, quick_set, exec,
}

module _ (m : Machine) (off : mpx_on m ≡ false) where
  pub bndmk_off : (n : BndName) (base index : ℕ) → bndmk n base index m ≡ (tt, m)
  unfolding bndmk
  bndmk_off n base index = rw off

  pub spilled_off : (n : BndName) → spilled n m ≡ m
  unfolding spilled bndmov
  spilled_off n = rw off

  pub mpx_on-scrubbed_off : mpx_on (scrubbed m) ≡ false
  unfolding scrubbed mpx_on
  mpx_on-scrubbed_off = off

-- With MPX off a call ends in the machine that it found, or with its stack slots cleared.
on_register_off :
    (c : Call) {m : Machine}
    → IsMachine m
    → mpx_on m ≡ false
    → (n : BndName) → reg_of c ≡ encode n
    → ((exec c m).1 ≡ m) ⊎ ((exec c m).1 ≡ scrubbed m)
unfolding exec
on_register_off (get_lower reg) ok off n e = inr (rw (e, getbndl-encode ok n))
on_register_off (get_upper reg) ok off n e = inr (rw (e, getbndu-encode ok n))
on_register_off (get_both reg) ok off n e = inr (rw (e, getbnd-encode ok n))
on_register_off (quick_get reg) {m} ok off n e =
    inl (rw (e, qgetbndl-encode ok n, spilled_off m off n))
on_register_off (set_lower reg val) {m} ok off n e =
    inr (rw (e, setbndl_case ok n val, bndmk_off (scrubbed m) (mpx_on-scrubbed_off m off)))
on_register_off (set_upper reg val) {m} ok off n e =
    inr (rw (e, setbndu_case ok n val, bndmk_off (scrubbed m) (mpx_on-scrubbed_off m off)))
on_register_off (set_both reg val) {m} ok off n e =
    inl (rw (e, setbnd_case n val m, bndmk_off m off))
on_register_off (quick_set reg val) {m} ok off n e =
    inl (rw (e, qsetbndl_case n val m, bndmk_off m off))

bnds-scrubbed : (m : Machine) → ((scrubbed m).bnds ≡ m.bnds) × ((scrubbed m).stderr ≡ m.stderr)
unfolding scrubbed
bnds-scrubbed m = (refl, refl)

-- What a call does while MPX is off: no bounds register changes, stderr gets the lines of a number that
-- names no register, and the rest is kept.
pub record IsInert (c : Call) (m : Machine) : Type 0 where
  pub bnds : (exec c m).1.bnds ≡ m.bnds
  pub stderr : (exec c m).1.stderr ≡ lines_of c ++ m.stderr
  pub keeps : Keeps m (exec c m).1

-- On a machine of 64-bit registers and bytes with MPX off, no call changes a bounds register, whatever its
-- arguments; a call prints only on a number above 3, and then the lines of the functions that refuse it;
-- and every call keeps all other state outside its stack slots.
pub exec-IsInert : (c : Call) {m : Machine} → IsMachine m → mpx_on m ≡ false → IsInert c m
exec-IsInert c {m} ok off = elim (decode_cases (reg_of c)) [
  | inr h ↦ inert_invalid (exec_of_invalid c m h) (lines_of-invalid c h)
  | inl (n, e) ↦ inert_valid (lines_of-encode c n e) (on_register_off c ok off n e)
]
  where
    inert_invalid :
        {v : ℕ} {lines : List Message}
        → exec c m ≡ (v, record m { stderr = lines ++ m.stderr })
        → lines_of c ≡ lines
        → IsInert c m
    inert_invalid {lines} e l = record {
      bnds = rw e;
      stderr = rw (e, l);
      keeps = rw e (Keeps-stderr (lines ++ m.stderr) m);
    }

    inert_valid : lines_of c ≡ [] → ((exec c m).1 ≡ m) ⊎ ((exec c m).1 ≡ scrubbed m) → IsInert c m
    inert_valid l (inl same) = record {
      bnds = rw same;
      stderr = rw (same, l);
      keeps = rw same (Keeps-refl m);
    }
    inert_valid l (inr cleared) = record {
      bnds = rw cleared (bnds-scrubbed m).0;
      stderr = rw (cleared, l) (bnds-scrubbed m).1;
      keeps = rw cleared (Keeps-scrubbed m);
    }
