-- ===== src/Bounds/Api.antt =====
-- The eight functions of simplex/include/simplex.h over bounds registers as one type of calls, and what
-- they promise: four registers, each with a lower and an upper bound.
use simplex.Base.{ℕ, ◌*◌, ◌+◌, ◌/◌, ◌%◌, ◌^◌, ◌<◌, none, some, List, [], ◌∷◌, IsWord, not64}
use simplex.Machine.{BndName, Machine, M, pure, ◌>>=◌, ◌>>◌, put}
use simplex.Bounds.Bndreg.{Bndreg, decode}
use simplex.Bounds.Accessors.{getbndl, getbndu, getbnd, qgetbndl}
use simplex.Bounds.Mutators.{setbndl, setbndu, setbnd, qsetbndl}

pub data Call : Type 0 where
  get_lower get_upper get_both quick_get : Bndreg → Call
  set_lower set_upper set_both quick_set : Bndreg → ℕ → Call

-- A call of the library; what returns nothing counts as 0.
unfoldable pub exec : Call → M ℕ
exec (get_lower reg) = getbndl reg
exec (get_upper reg) = getbndu reg
exec (get_both reg) = getbnd reg
exec (quick_get reg) = qgetbndl reg
exec (set_lower reg val) = do setbndl reg val; pure 0
exec (set_upper reg val) = do setbndu reg val; pure 0
exec (set_both reg val) = do setbnd reg val; pure 0
exec (quick_set reg val) = do qsetbndl reg val; pure 0

unfoldable pub exec_all : List Call → M (List ℕ)
exec_all [] = pure []
exec_all (c ∷ cs) = do v ← exec c; vs ← exec_all cs; pure (v ∷ vs)

pub record Bound : Type 0 where
  pub lower : ℕ
  pub upper : ℕ

abbrev pub Bounds : Type 0
Bounds = BndName → Bound

-- The bounds that a machine's registers stand for.
abbrev pub view : Machine → Bounds
view m n = record { lower = (m.bnds n).lb; upper = not64 (m.bnds n).ub }

-- A call on a number that names no register does nothing and returns 0.
abbrev pub at_reg : Bndreg → (BndName → ℕ × Bounds) → Bounds → ℕ × Bounds
at_reg reg f b = elim (decode reg) [ none ↦ (0, b) | some n ↦ f n ]

unfoldable pub promise : Call → Bounds → ℕ × Bounds
promise (get_lower reg) b = at_reg reg (λ n. ((b n).lower, b)) b
promise (get_upper reg) b = at_reg reg (λ n. ((b n).upper, b)) b
promise (get_both reg) b = at_reg reg (λ n. ((b n).lower + (b n).upper * 2 ^ 64, b)) b
promise (quick_get reg) b = at_reg reg (λ n. ((b n).lower, b)) b
promise (set_lower reg val) b =
    at_reg reg (λ n. (0, put n (record { lower = val; upper = (b n).upper }) b)) b
promise (set_upper reg val) b =
    at_reg reg (λ n. (0, put n (record { lower = (b n).lower; upper = val }) b)) b
promise (set_both reg val) b =
    at_reg reg (λ n. (0, put n (record { lower = val % 2 ^ 64; upper = val / 2 ^ 64 }) b)) b
promise (quick_set reg val) b =
    at_reg reg (λ n. (0, put n (record { lower = val; upper = val }) b)) b

unfoldable pub promise_all : List Call → Bounds → List ℕ × Bounds
promise_all [] b = ([], b)
promise_all (c ∷ cs) b =
    let (v, b') = promise c b in let (vs, b'') = promise_all cs b' in (v ∷ vs, b'')

-- The arguments fit their C types.
abbrev pub IsTyped : Call → Type 0
IsTyped (set_lower reg val) = IsWord val
IsTyped (set_upper reg val) = IsWord val
IsTyped (set_both reg val) = val < 2 ^ 128
IsTyped (quick_set reg val) = IsWord val
IsTyped _ = Unit

abbrev pub AllTyped : List Call → Type 0
AllTyped [] = Unit
AllTyped (c ∷ cs) = IsTyped c × AllTyped cs
