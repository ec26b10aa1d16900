-- ===== src/Bounds/Interrupts/Code.antt =====
-- Code as data: the instructions of the `__asm__` blocks of simplex/lib/simplex.c with the C between them.
use simplex.Base.{ℕ, ◌/◌, ◌^◌, String, bit_and, bit_xor, u64, sub64, not64, List, [], ◌∷◌}
use simplex.Machine.{
  BndName, bnd0, bnd1, bnd2, bnd3, M, pure, ◌>>=◌, ◌>>◌, bndmov, bndmk, mov_load, andq, report,
}
use simplex.Bounds.Bndreg.{Bndreg, switch}
use simplex.Bounds.Accessors.{join128}
use simplex.Bounds.Mutators.{lower_mask}
use simplex.Bounds.Api.{
  Call, get_lower, get_upper, get_both, quick_get, set_lower, set_upper, set_both, quick_set,
}

pub data Code (A : Type 0) : Type 0 where
  done : A → Code A
  spill : BndName → ℕ → Code A → Code A
  make : BndName → ℕ → ℕ → Code A → Code A
  read : ℕ → (ℕ → Code A) → Code A
  mask : ℕ → ℕ → Code A → Code A
  print : String → ℕ → Code A → Code A

-- Code that nothing interrupts.
unfoldable pub run : {A : Type 0} → Code A → M A
unfolding bndmov bndmk mov_load andq report
run (done a) = pure a
run (spill n d p) = bndmov n d >> run p
run (make n base index p) = bndmk n base index >> run p
run (read d k) = mov_load d >>= λ v. run (k v)
run (mask imm d p) = andq imm d >> run p
run (print caller reg p) = report caller reg >> run p

unfoldable pub then_code : {A B : Type 0} → Code A → (A → Code B) → Code B
then_code (done a) f = f a
then_code (spill n d p) f = spill n d (then_code p f)
then_code (make n base index p) f = make n base index (then_code p f)
then_code (read d k) f = read d (λ v. then_code (k v) f)
then_code (mask imm d p) f = mask imm d (then_code p f)
then_code (print caller reg p) f = print caller reg (then_code p f)

-- What follows a `switch` that has read something.
abbrev pub sanitized : ℕ → Code ℕ
sanitized v = mask 0 0x78 (mask 0 0x80 (done v))

abbrev pub lower_of : (ℕ → Code ℕ) → BndName → Code ℕ
lower_of k n = spill n 0x80 (read 0x80 k)

abbrev pub upper_of : (ℕ → Code ℕ) → BndName → Code ℕ
upper_of k n = spill n 0x80 (read 0x78 k)

abbrev pub both_of : BndName → Code ℕ
both_of n = spill n 0x80 (read 0x78 (λ upper. read 0x80 (λ lower. sanitized (join128 upper lower))))

-- The same block over each of the four registers.
abbrev pub each : {A : Type 0} → Bndreg → (BndName → Code A) → Code A → Code A
each reg block default = switch reg (block bnd0) (block bnd1) (block bnd2) (block bnd3) default

unfoldable pub getbndl_code : Bndreg → Code ℕ
getbndl_code reg = each reg (lower_of sanitized) (print "getbndl" reg (done 0))

unfoldable pub getbndu_code : Bndreg → Code ℕ
getbndu_code reg = each reg (upper_of (λ v. sanitized (not64 v))) (print "getbndu" reg (done 0))

unfoldable pub getbnd_code : Bndreg → Code ℕ
getbnd_code reg = each reg both_of (print "getbndu" reg (done 0))

unfoldable pub qgetbndl_code : Bndreg → Code ℕ
qgetbndl_code reg = each reg (lower_of done) (print "getbndl" reg (done 0))

-- A `switch` that makes bounds.
abbrev pub making : String → Bndreg → ℕ → ℕ → Code ℕ
making caller reg base index =
    each reg (λ n. make n base index (done 0)) (print caller reg (done 0))

-- The machine code of a call.
unfoldable pub code : Call → Code ℕ
unfolding getbndl_code getbndu_code getbnd_code qgetbndl_code then_code
code (get_lower reg) = getbndl_code reg
code (get_upper reg) = getbndu_code reg
code (get_both reg) = getbnd_code reg
code (quick_get reg) = qgetbndl_code reg
code (set_lower reg val) =
    then_code (getbndu_code reg) (λ upper. making "setbndl" reg val (sub64 upper val))
code (set_upper reg val) =
    then_code (getbndl_code reg) (λ lower. making "setbndu" reg lower (sub64 val lower))
code (set_both reg val) =
    let lower = u64 (bit_and val lower_mask) in
    let upper = u64 (bit_xor val lower_mask / 2 ^ 64) in
    making "setbndu" reg lower (sub64 upper lower)
code (quick_set reg val) = making "qsetbndl" reg val 0

unfoldable pub code_all : List Call → Code (List ℕ)
unfolding code then_code
code_all [] = done []
code_all (c ∷ cs) = then_code (code c) (λ v. then_code (code_all cs) (λ vs. done (v ∷ vs)))
