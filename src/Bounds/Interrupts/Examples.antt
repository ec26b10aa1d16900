-- ===== src/Bounds/Interrupts/Examples.antt =====
-- A handler that clears all memory outside the red zone, between the two instructions that read BND1.
use simplex.Base.{ℕ, refl, arith, ltb, if◌then◌else◌, sub64, List, [], ◌∷◌}
use simplex.Machine.{bnd1, Machine, bndmov, slot}
use simplex.Machine.Samples.{active}
use simplex.Bounds.Api.{Call, get_lower, exec_all}
use simplex.Bounds.Interrupts.Code.{
  Code, done, read, mask, run, then_code, code, code_all, getbndl_code,
}
use simplex.Bounds.Interrupts.Safety.{
  zone, Agrees, Interrupted, spills, disturbed as interrupted, Same,
}
use simplex.Bounds.Interrupts.Transparent.{Executed-run, code_all-Same}

abbrev cleared : Machine → Machine
cleared m = record m { mem = λ x. if ltb (sub64 x (slot zone m)) zone then m.mem x else 0 }

cleared-Agrees : (m : Machine) → Agrees m (cleared m)
cleared-Agrees m = record {
  bnds = refl;
  bndcfgu = refl;
  bndstatus = refl;
  xcr0 = refl;
  osxsave = refl;
  rsp = refl;
  red_zone = λ x h. ground arith;
}

abbrev asks : List Call
asks = get_lower 1 ∷ []

-- The code behind the `bndmov`.
abbrev rest : Code (List ℕ)
rest = read 0x80 (λ v. mask 0 0x78 (mask 0 0x80 (done (v ∷ []))))

abbrev disturbed : Machine
disturbed = cleared (bndmov bnd1 0x80 active).1

disturbed-Interrupted :
    Interrupted (code_all asks) active (run rest disturbed).0 (run rest disturbed).1
unfolding code_all code then_code getbndl_code
disturbed-Interrupted =
    spills (interrupted (cleared-Agrees (bndmov bnd1 0x80 active).1) (Executed-run rest disturbed))

code_all-Same_example :
    Same (exec_all asks active) (run rest disturbed).0 (run rest disturbed).1
    × Interrupted (code_all asks) active (exec_all asks active).0 (exec_all asks active).1
code_all-Same_example = code_all-Same asks active disturbed-Interrupted
