-- ===== src/TestSuite.antt =====
-- The unit tests simplex/test/simplex_test.c. A test is a command that returns its assertions, in order.
use simplex.Base.{ℕ, ◌+◌, ◌*◌, ◌%◌, ◌^◌, Bool, List, [], ◌∷◌, ◌++◌, ◌==◌}
pub mod Promises
pub mod Loops
pub mod Suite
mod Examples
use simplex.Cpuid.{Cpu}
use simplex.Runtime.Xsave.{Outcome, ok, and_then}
use simplex.Runtime.Process.{process_specific_init, process_specific_finish}
use simplex.Machine.{Machine, M, pure, ◌>>=◌, ◌>>◌}
use simplex.Bounds.Bndreg.{Bndreg}
use simplex.Bounds.Accessors.{getbndl, getbndu, getbnd, qgetbndl}
use simplex.Bounds.Mutators.{setbndl, setbndu, setbnd, qsetbndl}

-- `for (bndreg_t reg = 0; reg < 4; reg++)`
unfoldable pub for_registers : (Bndreg → M (List Bool)) → M (List Bool)
for_registers body = do
  r0 ← body 0
  r1 ← body 1
  r2 ← body 2
  r3 ← body 3
  pure (r0 ++ (r1 ++ (r2 ++ r3)))

-- The bodies of the loops, over the value that the test uses.
unfoldable pub reset_body : Bndreg → M (List Bool)
reset_body reg = do setbndl reg 0; setbndu reg 0; pure []

unfoldable pub lower_body : ℕ → Bndreg → M (List Bool)
lower_body val reg = do setbndl reg val; res ← getbndl reg; pure ((res == val) ∷ [])

unfoldable pub upper_body : ℕ → Bndreg → M (List Bool)
upper_body val reg = do setbndu reg val; res ← getbndu reg; pure ((res == val) ∷ [])

unfoldable pub lower_upper_body : ℕ → ℕ → Bndreg → M (List Bool)
lower_upper_body val_l val_u reg = do
  setbndl reg val_l
  setbndu reg val_u
  res_l ← getbndl reg
  res_u ← getbndu reg
  pure ((res_l == val_l) ∷ (res_u == val_u) ∷ [])

unfoldable pub upper_lower_body : ℕ → ℕ → Bndreg → M (List Bool)
upper_lower_body val_l val_u reg = do
  setbndu reg val_u
  setbndl reg val_l
  res_l ← getbndl reg
  res_u ← getbndu reg
  pure ((res_l == val_l) ∷ (res_u == val_u) ∷ [])

unfoldable pub wide_body : ℕ → Bndreg → M (List Bool)
wide_body val reg = do setbnd reg val; res ← getbnd reg; pure ((res == val) ∷ [])

unfoldable pub quick_body : ℕ → Bndreg → M (List Bool)
quick_body val reg = do qsetbndl reg val; res ← qgetbndl reg; pure ((res == val) ∷ [])

abbrev pub deadbeef : ℕ
deadbeef = 0xDEADBEEFDEADBEEF

-- `0xDEADBEEFDEADBEEF << 16` is shifted as a 64-bit number, and widened after that.
abbrev pub wide_value : ℕ
wide_value = deadbeef * 2 ^ 16 % 2 ^ 64

unfoldable pub reset_bnd_regs : M (List Bool)
reset_bnd_regs = for_registers reset_body

unfoldable pub test_lower_half : M (List Bool)
test_lower_half = for_registers (lower_body deadbeef)

unfoldable pub test_upper_half : M (List Bool)
test_upper_half = for_registers (upper_body deadbeef)

unfoldable pub test_lower_lt_upper : M (List Bool)
test_lower_lt_upper = for_registers (lower_upper_body 0xBEEF 0xDEAD)

unfoldable pub test_lower_gt_upper : M (List Bool)
test_lower_gt_upper = for_registers (lower_upper_body 0xDEAD 0xBEEF)

unfoldable pub test_upper_lt_lower : M (List Bool)
test_upper_lt_lower = for_registers (upper_lower_body 0xDEAD 0xBEEF)

unfoldable pub test_upper_gt_lower : M (List Bool)
test_upper_gt_lower = for_registers (upper_lower_body 0xBEEF 0xDEAD)

unfoldable pub test_wide : M (List Bool)
test_wide = for_registers (wide_body wide_value)

unfoldable pub test_quick : M (List Bool)
test_quick = for_registers (quick_body deadbeef)

-- `CU_TEST_SETUP` runs before each test.
abbrev after_setup : M (List Bool) → M (List Bool)
after_setup test = do _ ← reset_bnd_regs; test

-- The tests of `CUNIT_CI_RUN`, in order.
abbrev pub tests : List (M (List Bool))
tests =
    test_lower_half ∷ test_upper_half ∷ test_lower_lt_upper ∷ test_lower_gt_upper
    ∷ test_upper_lt_lower ∷ test_upper_gt_lower ∷ test_wide ∷ test_quick ∷ []

unfoldable pub run_tests : List (M (List Bool)) → M (List Bool)
run_tests [] = pure []
run_tests (t ∷ ts) = do r ← after_setup t; rs ← run_tests ts; pure (r ++ rs)

-- The suite between `CU_SUITE_SETUP` and `CU_SUITE_TEARDOWN`, which assert what the runtime returns.
unfoldable pub suite : Cpu → Machine → Outcome (List Bool)
unfolding run_tests
suite cpu m = and_then (process_specific_init cpu m) λ ready m'.
    let r = run_tests tests m' in
    and_then (process_specific_finish cpu r.1) λ done. ok (ready ∷ (r.0 ++ done ∷ []))
