-- ===== src/Bounds/Interrupts/Runs.antt =====
-- Code that nothing interrupts is the model of Bounds/Accessors and Bounds/Mutators.
use simplex.Base.{◌≡◌, refl, ◌∙◌, arith, List, [], ◌∷◌}
use simplex.Machine.{Machine}
use simplex.Bounds.Bndreg.{Bndreg}
use simplex.Bounds.Accessors.{
  getbndl, getbndu, getbnd, qgetbndl, spill_lower, spill_upper, spill_both, sanitize,
}
use simplex.Bounds.Mutators.{setbndl, setbndu, setbnd, qsetbndl}
use simplex.Bounds.Api.{
  Call, get_lower, get_upper, get_both, quick_get, set_lower, set_upper, set_both, quick_set, exec,
  exec_all,
}
use simplex.Bounds.Interrupts.Code.{
  Code, done, spill, make, read, mask, print, run, then_code, code, code_all, getbndl_code,
  getbndu_code, getbnd_code, qgetbndl_code,
}

run-then_code :
    {A B : Type 0} (p : Code A) (f : A → Code B) (m : Machine)
    → run (then_code p f) m ≡ run (f (run p m).0) (run p m).1
unfolding run then_code
run-then_code (done a) f m = refl
run-then_code (spill n d p) f m = run-then_code p f _
run-then_code (make n base index p) f m = run-then_code p f _
run-then_code (read d k) f m = run-then_code (k _) f _
run-then_code (mask imm d p) f m = run-then_code p f _
run-then_code (print caller reg p) f m = run-then_code p f _

-- Over the numbers of the four registers and over the others.
run-getbndl_code : (reg : Bndreg) (m : Machine) → run (getbndl_code reg) m ≡ getbndl reg m
unfolding run getbndl_code getbndl spill_lower sanitize
run-getbndl_code reg m = ground arith

run-getbndu_code : (reg : Bndreg) (m : Machine) → run (getbndu_code reg) m ≡ getbndu reg m
unfolding run getbndu_code getbndu spill_upper sanitize
run-getbndu_code reg m = ground arith

run-getbnd_code : (reg : Bndreg) (m : Machine) → run (getbnd_code reg) m ≡ getbnd reg m
unfolding run getbnd_code getbnd spill_both sanitize
run-getbnd_code reg m = ground arith

run-qgetbndl_code : (reg : Bndreg) (m : Machine) → run (qgetbndl_code reg) m ≡ qgetbndl reg m
unfolding run qgetbndl_code qgetbndl spill_lower
run-qgetbndl_code reg m = ground arith

run-code : (c : Call) (m : Machine) → run (code c) m ≡ exec c m
unfolding exec code
run-code (get_lower reg) m = run-getbndl_code reg m
run-code (get_upper reg) m = run-getbndu_code reg m
run-code (get_both reg) m = run-getbnd_code reg m
run-code (quick_get reg) m = run-qgetbndl_code reg m
run-code (set_lower reg val) m =
    run-then_code (getbndu_code reg) _ m
    ∙ rw (run-getbndu_code reg m) (unfold run in unfold setbndl in ground arith)
run-code (set_upper reg val) m =
    run-then_code (getbndl_code reg) _ m
    ∙ rw (run-getbndl_code reg m) (unfold run in unfold setbndu in ground arith)
run-code (set_both reg val) m = unfold run in unfold setbnd in ground arith
run-code (quick_set reg val) m = unfold run in unfold qsetbndl in ground arith

pub run-code_all : (cs : List Call) (m : Machine) → run (code_all cs) m ≡ exec_all cs m
unfolding exec_all code_all run
run-code_all [] m = refl
run-code_all (c ∷ cs) m =
    run-then_code (code c) _ m
    ∙ rw (run-code c m)
        (run-then_code (code_all cs) _ (exec c m).1 ∙ rw (run-code_all cs (exec c m).1))
