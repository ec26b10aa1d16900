-- ===== src/Bounds/Calls.antt =====
-- One call of the interface does to the machine what it promises.
use simplex.Base.{
  bit_or, Bool-cases, ℕ, zero, suc, ◌+◌, ◌*◌, ◌-◌, ◌/◌, ◌%◌, ◌^◌, ◌≤◌, ◌<◌, ◌≡◌, refl, ap, ◌∙◌, inl,
  inr, arith, ◌⊎◌, not64, bit_or-shifted, ◌++◌, fun_ext, IsWord,
}
use simplex.Machine.{BndName, bnd0, bnd1, bnd2, bnd3, Machine, put, bndmov, mpx_on}
use simplex.Bounds.Bndreg.{Bndreg, encode}
use simplex.Bounds.Accessors.{join128}
use simplex.Bounds.Blocks.{lower_half, upper_half, scrubbed, spilled}
use simplex.Bounds.Reads.{getbndl-encode, getbndu-encode, getbnd-encode, qgetbndl-encode}
use simplex.Bounds.Writes.{
  with_bound, half_of_on, setbndl_lem, setbndu_lem, setbnd_lem, qsetbndl_lem,
}
use simplex.Bounds.Frame.{
  IsReady, Keeps, Keeps-trans, Keeps-scrubbed, Keeps-spilled, Keeps-with_bound, Keeps-stderr,
}
use simplex.Bounds.Errors.{reg_of, complaints, messages, exec_of_invalid}
use simplex.Bounds.Api.{
  Call, get_lower, get_upper, get_both, quick_get, set_lower, set_upper, set_both, quick_set, exec,
  Bounds, view, promise, at_reg, IsTyped,
}

-- A number names a register or is refused by every `switch`.
pub decode_cases : (reg : Bndreg) → ((n : BndName) × (reg ≡ encode n)) ⊎ (4 ≤ reg)
decode_cases zero = inl (bnd0, refl)
decode_cases (suc zero) = inl (bnd1, refl)
decode_cases (suc (suc zero)) = inl (bnd2, refl)
decode_cases (suc (suc (suc zero))) = inl (bnd3, refl)
decode_cases (suc (suc (suc (suc reg)))) = inr (omega arith)

at_reg-encode : (n : BndName) (f : BndName → ℕ × Bounds) (b : Bounds) → at_reg (encode n) f b ≡ f n
at_reg-encode bnd0 f b = refl
at_reg-encode bnd1 f b = refl
at_reg-encode bnd2 f b = refl
at_reg-encode bnd3 f b = refl

-- `getbnd` puts the two bounds side by side.
pub join128_lem : (lb ub : ℕ) → IsWord lb → IsWord ub → join128 ub lb ≡ lb + not64 ub * 2 ^ 64
join128_lem lb ub hl hu = ap (bit_or lb) shifted ∙ bit_or-shifted 64 lb (not64 ub) hl
  where
    shifted : (2 ^ 128 - 1 - ub) * 2 ^ 64 % 2 ^ 128 ≡ not64 ub * 2 ^ 64
    shifted = omega arith

view-scrubbed : (m : Machine) → view (scrubbed m) ≡ view m
unfolding scrubbed
view-scrubbed m = refl

view-spilled : (n : BndName) (m : Machine) → view (spilled n m) ≡ view m
unfolding spilled bndmov
view-spilled n m = elim (Bool-cases (mpx_on m)) [ inl on ↦ rw on | inr off ↦ rw off ]

view-with_bound :
    (n : BndName) (lower upper : ℕ) (m : Machine)
    → IsWord upper
    → view (with_bound n lower upper m) ≡ put n (record { lower = lower; upper = upper }) (view m)
unfolding with_bound
view-with_bound n lower upper m fits = fun_ext λ k. ground arith

-- What a call makes of a machine: the promised result, the promised bounds, and the rest kept.
pub record Refines (c : Call) (m : Machine) : Type 0 where
  pub result : (exec c m).0 ≡ (promise c (view m)).0
  pub bounds : view (exec c m).1 ≡ (promise c (view m)).1
  pub keeps : Keeps m (exec c m).1

-- From an equation for the call and one for its promise.
Refines-of_eq :
    (c : Call) (m : Machine) {v : ℕ} {m' : Machine} {b : Bounds}
    → exec c m ≡ (v, m')
    → promise c (view m) ≡ (v, b)
    → view m' ≡ b
    → Keeps m m'
    → Refines c m
Refines-of_eq c m e p same kept = record {
  result = rw (e, p);
  bounds = rw (e, p) same;
  keeps = rw e kept;
}

-- A call on a number that names no register.
promise_of_invalid : (c : Call) (b : Bounds) → 4 ≤ reg_of c → promise c b ≡ (0, b)
unfolding promise
promise_of_invalid (get_lower reg) b h = ground arith
promise_of_invalid _ b h = ground arith

Refines-of_invalid : (c : Call) (m : Machine) → 4 ≤ reg_of c → Refines c m
Refines-of_invalid c m h =
    Refines-of_eq c m (exec_of_invalid c m h) (promise_of_invalid c (view m) h) refl
      (Keeps-stderr (messages (reg_of c) (complaints c) ++ m.stderr) m)

-- The accessors on register `n`.
module _ (n : BndName) {m : Machine} (r : IsReady m) where
  Refines-get_lower : Refines (get_lower (encode n)) m
  unfolding exec promise
  Refines-get_lower =
      Refines-of_eq (get_lower (encode n)) m
        (getbndl-encode r.machine n ∙ ap (λ v. (v, scrubbed m)) (half_of_on n m r.on).0)
        (at_reg-encode n _ (view m)) (view-scrubbed m) (Keeps-scrubbed m)

  Refines-get_upper : Refines (get_upper (encode n)) m
  unfolding exec promise
  Refines-get_upper =
      Refines-of_eq (get_upper (encode n)) m
        (getbndu-encode r.machine n ∙ ap (λ v. (not64 v, scrubbed m)) (half_of_on n m r.on).1)
        (at_reg-encode n _ (view m)) (view-scrubbed m) (Keeps-scrubbed m)

  joined : join128 (upper_half n m) (lower_half n m) ≡ (view m n).lower + (view m n).upper * 2 ^ 64
  joined = rw (half_of_on n m r.on).0 (
      rw (half_of_on n m r.on).1
        (join128_lem (m.bnds n).lb (m.bnds n).ub (r.machine.lb_fits n) (r.machine.ub_fits n)))

  Refines-get_both : Refines (get_both (encode n)) m
  unfolding exec promise
  Refines-get_both =
      Refines-of_eq (get_both (encode n)) m
        (getbnd-encode r.machine n ∙ ap (λ v. (v, scrubbed m)) joined) (at_reg-encode n _ (view m))
        (view-scrubbed m) (Keeps-scrubbed m)

  Refines-quick_get : Refines (quick_get (encode n)) m
  unfolding exec promise
  Refines-quick_get =
      Refines-of_eq (quick_get (encode n)) m
        (qgetbndl-encode r.machine n ∙ ap (λ v. (v, spilled n m)) (half_of_on n m r.on).0)
        (at_reg-encode n _ (view m)) (view-spilled n m) (Keeps-spilled n m)

  -- The mutators on register `n`, which all end in `with_bound`.
  Refines-set_lower : (val : ℕ) → IsWord val → Refines (set_lower (encode n) val) m
  unfolding exec promise scrubbed
  Refines-set_lower val fits =
      Refines-of_eq (set_lower (encode n) val) m
        (ap (λ t. (0, t.1)) (setbndl_lem n r.machine r.on val fits)) (at_reg-encode n _ (view m))
        (view-with_bound n val (view m n).upper (scrubbed m) (omega arith))
        (Keeps-trans (Keeps-scrubbed m) (Keeps-with_bound n val (view m n).upper (scrubbed m) fits))

  Refines-set_upper : (val : ℕ) → IsWord val → Refines (set_upper (encode n) val) m
  unfolding exec promise scrubbed
  Refines-set_upper val fits =
      Refines-of_eq (set_upper (encode n) val) m
        (ap (λ t. (0, t.1)) (setbndu_lem n r.machine r.on val fits)) (at_reg-encode n _ (view m))
        (view-with_bound n (view m n).lower val (scrubbed m) fits)
        (Keeps-trans (Keeps-scrubbed m)
          (Keeps-with_bound n (view m n).lower val (scrubbed m) (r.machine.lb_fits n)))

  Refines-set_both : (val : ℕ) → val < 2 ^ 128 → Refines (set_both (encode n) val) m
  unfolding exec promise
  Refines-set_both val fits =
      Refines-of_eq (set_both (encode n) val) m (ap (λ t. (0, t.1)) (setbnd_lem n m r.on val fits))
        (at_reg-encode n _ (view m))
        (view-with_bound n (val % 2 ^ 64) (val / 2 ^ 64) m (omega arith))
        (Keeps-with_bound n (val % 2 ^ 64) (val / 2 ^ 64) m (omega arith))

  Refines-quick_set : (val : ℕ) → IsWord val → Refines (quick_set (encode n) val) m
  unfolding exec promise
  Refines-quick_set val fits =
      Refines-of_eq (quick_set (encode n) val) m
        (ap (λ t. (0, t.1)) (qsetbndl_lem n m r.on val fits)) (at_reg-encode n _ (view m))
        (view-with_bound n val val m fits) (Keeps-with_bound n val val m fits)

on_register :
    (c : Call) {m : Machine}
    → IsReady m
    → IsTyped c
    → (n : BndName) → reg_of c ≡ encode n
    → Refines c m
on_register (get_lower reg) r t n e = rw e (Refines-get_lower n r)
on_register (get_upper reg) r t n e = rw e (Refines-get_upper n r)
on_register (get_both reg) r t n e = rw e (Refines-get_both n r)
on_register (quick_get reg) r t n e = rw e (Refines-quick_get n r)
on_register (set_lower reg val) r t n e = rw e (Refines-set_lower n r val t)
on_register (set_upper reg val) r t n e = rw e (Refines-set_upper n r val t)
on_register (set_both reg val) r t n e = rw e (Refines-set_both n r val t)
on_register (quick_set reg val) r t n e = rw e (Refines-quick_set n r val t)

-- On a machine of 64-bit registers and bytes with MPX on, every call, with any register number and
-- with arguments of their C types, returns what it promises, leaves the bounds that it promises,
-- and keeps all other state but stderr outside its stack slots.
pub exec-Refines : (c : Call) {m : Machine} → IsReady m → IsTyped c → Refines c m
exec-Refines c {m} r t = elim (decode_cases (reg_of c)) [
  | inl (n, e) ↦ on_register c r t n e
  | inr h ↦ Refines-of_invalid c m h
]
