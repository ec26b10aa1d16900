-- ===== src/Bounds/Examples.antt =====
-- Runs of the calls on a machine with MPX on and on one with MPX off.
use simplex.Bounds.Differ.{Differ}
use simplex.Bounds.Secrecy.{exec_all-Differ}
use simplex.Base.{◌≡◌, refl, arith, false, List, [], ◌∷◌, if◌then◌else◌, ltb, sub64}
use simplex.Machine.{Machine, put, bnd2, bnd3, mpx_on, slot}
use simplex.Machine.Samples.{idle, active}
use simplex.Bounds.Blocks.{IsMachine}
use simplex.Bounds.Frame.{IsReady, Keeps}
use simplex.Bounds.Api.{
  Call, get_lower, get_upper, get_both, quick_get, set_lower, set_upper, set_both, exec, exec_all,
}
use simplex.Bounds.Refinement.{RefinesAll, exec_all-RefinesAll}
use simplex.Bounds.Residue.{by_set_upper, Clears-mem}
use simplex.Bounds.Disabled.{IsInert, exec-IsInert}
use simplex.Bounds.Kept.{exec-Keeps}
use simplex.Bounds.Traces.{exec_all-AllSanitize}

idle-IsMachine : IsMachine idle
idle-IsMachine = record {
  lb_fits = λ n. omega arith;
  ub_fits = λ n. omega arith;
  bytes = λ x. omega arith;
}

pub active-IsReady : IsReady active
unfolding mpx_on
active-IsReady = record {
  machine = record {
    lb_fits = λ n. omega arith;
    ub_fits = λ n. omega arith;
    bytes = λ x. omega arith;
  };
  on = refl;
}

idle-off : mpx_on idle ≡ false
unfolding mpx_on
idle-off = refl

abbrev calls : List Call
calls = set_lower 1 0xDEAD ∷ set_upper 1 0xBEEF ∷ get_lower 1 ∷ get_both 1 ∷ get_upper 9 ∷ []

exec_all-RefinesAll_example : RefinesAll calls active
exec_all-RefinesAll_example =
    exec_all-RefinesAll calls active-IsReady (omega arith, (omega arith, (tt, (tt, (tt, tt)))))

Clears-mem_example :
    (exec (set_upper 3 0xBEEF) active).1.mem 0x7FFE_FF80
    ≡ (if ltb (sub64 0x7FFE_FF80 (slot 0x80 active)) 16 then 0 else active.mem 0x7FFE_FF80)
Clears-mem_example =
    Clears-mem {n = bnd3} {m = active} (by_set_upper 0xBEEF) (active-IsReady.machine) 0x7FFE_FF80

exec-IsInert_example : IsInert (set_both 0 77) idle
exec-IsInert_example = exec-IsInert (set_both 0 77) idle-IsMachine idle-off

-- Two refused calls between two that are not.
abbrev refusing : List Call
refusing = set_lower 1 5 ∷ set_upper 4 6 ∷ get_both 9 ∷ get_lower 1 ∷ []

exec-Keeps_example : Keeps idle (exec (quick_get 1) idle).1
exec-Keeps_example = exec-Keeps (quick_get 1) idle-IsMachine tt

-- `active` with another secret in BND2.
abbrev other_secret : Machine
other_secret = record active { bnds = put bnd2 (record { lb = 0xAAAA; ub = 0xBBBB }) active.bnds }

other_secret-IsMachine : IsMachine other_secret
other_secret-IsMachine = record {
  lb_fits = λ n. ground arith;
  ub_fits = λ n. ground arith;
  bytes = λ x. omega arith;
}

active-Differ : Differ bnd2 active other_secret
active-Differ = record {
  others = λ k h. rw h refl;
  bndcfgu = refl;
  bndstatus = refl;
  xcr0 = refl;
  osxsave = refl;
  rsp = refl;
  mem = refl;
  stderr = refl;
}

abbrev discreet : List Call
discreet = set_lower 2 5 ∷ get_both 1 ∷ quick_get 0 ∷ get_upper 7 ∷ []

exec_all-Differ_example :
    ((exec_all discreet other_secret).0 ≡ (exec_all discreet active).0)
    × Differ bnd2 (exec_all discreet active).1 (exec_all discreet other_secret).1
exec_all-Differ_example =
    exec_all-Differ discreet (active-IsReady.machine) other_secret-IsMachine active-Differ
      (omega arith, (tt, (tt, (tt, tt)))) (tt, (omega arith, (omega arith, (omega arith, tt))))

-- They read the secret and set a half of it.
abbrev asking : List Call
asking = get_lower 2 ∷ get_both 2 ∷ set_upper 2 9 ∷ quick_get 1 ∷ []

exec_all-AllSanitize_example :
    Differ bnd2 (exec_all asking active).1 (exec_all asking other_secret).1
exec_all-AllSanitize_example =
    exec_all-AllSanitize asking (active-IsReady.machine) other_secret-IsMachine active-Differ
      (tt, (tt, (omega arith, (tt, tt)))) (tt, (tt, (tt, (omega arith, tt))))

-- With MPX off the first call returns what lies on the stack, and the last what the set has left there.
abbrev in_vain : List Call
in_vain = quick_get 2 ∷ set_lower 2 0xDEAD ∷ get_lower 2 ∷ get_upper 7 ∷ []
