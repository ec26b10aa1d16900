-- ===== src/Bounds/Interrupts/Transparent.antt =====
-- Handlers do not change what the calls do.
use simplex.Base.{ℕ, ◌≤◌, ◌≡◌, arith, List, [], ◌∷◌, String, inl, inr, sub64, not64}
use simplex.Machine.{BndName, bnd0, bnd1, bnd2, bnd3, Machine}
use simplex.Bounds.Bndreg.{Bndreg, encode}
use simplex.Bounds.Accessors.{join128}
use simplex.Bounds.Calls.{decode_cases}
use simplex.Bounds.Api.{
  Call, get_lower, get_upper, get_both, quick_get, set_lower, set_upper, set_both, quick_set,
  exec_all,
}
use simplex.Bounds.Interrupts.Code.{
  Code, done, spill, make, read, mask, print, run, then_code, code, code_all, each, making,
  lower_of, upper_of, both_of, sanitized, getbndl_code, getbndu_code, getbnd_code, qgetbndl_code,
}
use simplex.Bounds.Interrupts.Runs.{run-code_all}
use simplex.Bounds.Interrupts.Safety.{
  Agrees-refl, Executed, Interrupted, InZone, ends, spills, makes, reads, masks, prints, Same,
  Interrupted-Same,
}

-- Nothing need come between the instructions.
pub Executed-run :
    {Between : Machine → Machine → Type 0} {A : Type 0} (p : Code A) (m : Machine)
    → Executed Between p m (run p m).0 (run p m).1
unfolding run
Executed-run (done a) m = ends a m
Executed-run (spill n d p) m = spills (Executed-run p _)
Executed-run (make n base index p) m = makes (Executed-run p _)
Executed-run (read d k) m = reads (Executed-run (k _) _)
Executed-run (mask imm d p) m = masks (Executed-run p _)
Executed-run (print caller reg p) m = prints (Executed-run p _)

InZone-then_code :
    {A B : Type 0} (p : Code A) (f : A → Code B)
    → InZone p
    → ((a : A) → InZone (f a))
    → InZone (then_code p f)
unfolding then_code
InZone-then_code (done a) f z h = h a
InZone-then_code (spill n d p) f z h = (z.0, z.1, InZone-then_code p f z.2 h)
InZone-then_code (make n base index p) f z h = InZone-then_code p f z h
InZone-then_code (read d k) f z h = (z.0, z.1, λ v. InZone-then_code (k v) f (z.2 v) h)
InZone-then_code (mask imm d p) f z h = (z.0, z.1, InZone-then_code p f z.2 h)
InZone-then_code (print caller reg p) f z h = InZone-then_code p f z h

each_other :
    {A : Type 0} (reg : Bndreg) (block : BndName → Code A) (default : Code A)
    → 4 ≤ reg
    → each reg block default ≡ default
each_other reg block default h = ground arith

InZone-each :
    {A : Type 0} (reg : Bndreg) (block : BndName → Code A) (default : Code A)
    → ((n : BndName) → InZone (block n))
    → InZone default
    → InZone (each reg block default)
InZone-each reg block default h z = elim (decode_cases reg) [
  | inl (n, e) ↦ rw e (on_register n)
  | inr other ↦ rw (each_other reg block default other) z
]
  where
    on_register : (n : BndName) → InZone (each (encode n) block default)
    on_register bnd0 = h bnd0
    on_register bnd1 = h bnd1
    on_register bnd2 = h bnd2
    on_register bnd3 = h bnd3

InZone-sanitized : (v : ℕ) → InZone (sanitized v)
InZone-sanitized v = (omega arith, omega arith, (omega arith, omega arith, tt))

InZone-making :
    (caller : String) (reg : Bndreg) (base index : ℕ) → InZone (making caller reg base index)
InZone-making caller reg base index =
    InZone-each reg (λ n. make n base index (done 0)) (print caller reg (done 0)) (λ n. tt) tt

InZone-getbndl_code : (reg : Bndreg) → InZone (getbndl_code reg)
unfolding getbndl_code
InZone-getbndl_code reg =
    InZone-each reg (lower_of sanitized) (print "getbndl" reg (done 0))
      (λ n. (omega arith, omega arith, (omega arith, omega arith, InZone-sanitized))) tt

InZone-getbndu_code : (reg : Bndreg) → InZone (getbndu_code reg)
unfolding getbndu_code
InZone-getbndu_code reg =
    InZone-each reg (upper_of (λ v. sanitized (not64 v))) (print "getbndu" reg (done 0))
      (λ n. (omega arith, omega arith, (omega arith, omega arith, λ v. InZone-sanitized (not64 v))))
      tt

InZone-getbnd_code : (reg : Bndreg) → InZone (getbnd_code reg)
unfolding getbnd_code
InZone-getbnd_code reg =
    InZone-each reg both_of (print "getbndu" reg (done 0))
      (λ n. (
        omega arith,
        omega arith,
        (
          omega arith,
          omega arith,
          λ upper. (omega arith, omega arith, λ lower. InZone-sanitized (join128 upper lower)),
        ),
      ))
      tt

InZone-qgetbndl_code : (reg : Bndreg) → InZone (qgetbndl_code reg)
unfolding qgetbndl_code
InZone-qgetbndl_code reg =
    InZone-each reg (lower_of done) (print "getbndl" reg (done 0))
      (λ n. (omega arith, omega arith, (omega arith, omega arith, λ v. tt))) tt

InZone-code : (c : Call) → InZone (code c)
unfolding code
InZone-code (get_lower reg) = InZone-getbndl_code reg
InZone-code (get_upper reg) = InZone-getbndu_code reg
InZone-code (get_both reg) = InZone-getbnd_code reg
InZone-code (quick_get reg) = InZone-qgetbndl_code reg
InZone-code (set_lower reg val) =
    InZone-then_code (getbndu_code reg) _ (InZone-getbndu_code reg)
      (λ upper. InZone-making "setbndl" reg val (sub64 upper val))
InZone-code (set_upper reg val) =
    InZone-then_code (getbndl_code reg) _ (InZone-getbndl_code reg)
      (λ lower. InZone-making "setbndu" reg lower (sub64 val lower))
InZone-code (set_both reg val) = InZone-making "setbndu" reg _ _
InZone-code (quick_set reg val) = InZone-making "qsetbndl" reg val 0

pub InZone-code_all : (cs : List Call) → InZone (code_all cs)
unfolding code_all
InZone-code_all [] = tt
InZone-code_all (c ∷ cs) =
    InZone-then_code (code c) _ (InZone-code c)
      (λ v. InZone-then_code (code_all cs) _ (InZone-code_all cs) (λ vs. tt))

-- Signal handlers may run between any two instructions of a sequence of calls, as often as they like, with MPX
-- on or off. If each leaves memory in the 128 bytes below %rsp as it was, and the kernel restores the registers
-- behind it, then the calls return what they return when nothing interrupts them, and end with the same
-- registers and the same red zone; and one way to run them is without a handler.
pub code_all-Same :
    (cs : List Call) (m : Machine) {vs : List ℕ} {m' : Machine}
    → Interrupted (code_all cs) m vs m'
    → Same (exec_all cs m) vs m' × Interrupted (code_all cs) m (exec_all cs m).0 (exec_all cs m).1
code_all-Same cs m r = (
  rw (← run-code_all cs m) (Interrupted-Same (InZone-code_all cs) (Agrees-refl m) r),
  rw (← run-code_all cs m) (Executed-run (code_all cs) m),
)
