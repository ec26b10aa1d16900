-- ===== src/TestSuite/Suite.antt =====
-- The whole suite passes.
use simplex.Base.{ℕ, ◌+◌, ◌≡◌, refl, ap, ◌∙◌, arith, Bool, true, List, [], ◌∷◌, ◌++◌}
use simplex.Cpuid.{Cpu}
use simplex.Machine.{Machine, M}
use simplex.Runtime.Support.{check_mpx_support}
use simplex.Runtime.Xsave.{ok}
use simplex.Runtime.Outcomes.{configured}
use simplex.Runtime.Lifecycle.{IsHosted, configured-IsHosted, mpx_on-configured, init_ok, finish_ok}
use simplex.TestSuite.{
  reset_bnd_regs, test_lower_half, test_upper_half, test_lower_lt_upper, test_lower_gt_upper,
  test_upper_lt_lower, test_upper_gt_lower, test_wide, test_quick, wide_value, deadbeef, tests,
  run_tests, suite, for_registers, reset_body, lower_body, upper_body, lower_upper_body,
  upper_lower_body, wide_body, quick_body,
}
use simplex.TestSuite.Loops.{
  IsLive, AllTrue, AllTrue-append, Passes, for_registers-Passes, reset_body-Passes,
  lower_body-Passes, upper_body-Passes, lower_upper_body-Passes, upper_lower_body-Passes,
  wide_body-Passes, quick_body-Passes,
}

abbrev Always : M (List Bool) → Type 0
Always t = (m : Machine) → IsLive m → Passes (t m)

abbrev AllAlways : List (M (List Bool)) → Type 0
AllAlways [] = Unit
AllAlways (t ∷ ts) = Always t × AllAlways ts

reset-Always : Always reset_bnd_regs
unfolding reset_bnd_regs
reset-Always = for_registers-Passes _ reset_body-Passes

tests-AllAlways : AllAlways tests
unfolding test_lower_half test_upper_half test_lower_lt_upper test_lower_gt_upper
    test_upper_lt_lower test_upper_gt_lower test_wide test_quick
tests-AllAlways = (
  for_registers-Passes _ (lower_body-Passes deadbeef (omega arith)),
  (
    for_registers-Passes _ (upper_body-Passes deadbeef (omega arith)),
    (
      for_registers-Passes _ (lower_upper_body-Passes 0xBEEF 0xDEAD (omega arith) (omega arith)),
      (
        for_registers-Passes _ (lower_upper_body-Passes 0xDEAD 0xBEEF (omega arith) (omega arith)),
        (
          for_registers-Passes _
              (upper_lower_body-Passes 0xDEAD 0xBEEF (omega arith) (omega arith)),
          (
            for_registers-Passes _
                (upper_lower_body-Passes 0xBEEF 0xDEAD (omega arith) (omega arith)),
            (
              for_registers-Passes _ (wide_body-Passes wide_value (omega arith)),
              (for_registers-Passes _ (quick_body-Passes deadbeef (omega arith)), tt),
            ),
          ),
        ),
      ),
    ),
  ),
)

run_tests-Passes :
    (ts : List (M (List Bool))) → AllAlways ts → (m : Machine) → IsLive m → Passes (run_tests ts m)
unfolding run_tests
run_tests-Passes [] h m r = record { asserts = tt; live = r }
run_tests-Passes (t ∷ ts) h m r =
    let p = h.0 (reset_bnd_regs m).1 (reset-Always m r).live in
    let q = run_tests-Passes ts h.1 _ p.live in
    record { asserts = AllTrue-append _ _ p.asserts q.asserts; live = q.live }

-- The assertions of a run, counted.
abbrev pub length : List Bool → ℕ
length [] = 0
length (b ∷ bs) = 1 + length bs

length-run_tests : (m : Machine) → length (run_tests tests m).0 ≡ 48
unfolding run_tests for_registers reset_bnd_regs reset_body lower_body upper_body lower_upper_body
    upper_lower_body wide_body quick_body test_lower_half test_upper_half test_lower_lt_upper
    test_lower_gt_upper test_upper_lt_lower test_upper_gt_lower test_wide test_quick
length-run_tests m = refl

length-framed : (bs : List Bool) (b c : Bool) → length (b ∷ (bs ++ c ∷ [])) ≡ 2 + length bs
length-framed [] b c = refl
length-framed (a ∷ bs) b c = omega (arith, length-framed bs b c)

-- On a processor that passes the check and a machine of 64-bit registers and bytes whose operating
-- system has enabled XSAVE with the two MPX components, the suite runs to its end without a fault,
-- and its 50 assertions hold.
pub suite-AllTrue :
    (cpu : Cpu) (m : Machine)
    → check_mpx_support cpu ≡ true
    → IsHosted m
    → (results : List Bool) × (final : Machine) × (suite cpu m ≡ ok results final)
      × (length results ≡ 50)
      × AllTrue results
unfolding suite
suite-AllTrue cpu m supported h =
    let hosted = configured-IsHosted 3 h in
    let start : IsLive (configured 3 m) = record {
      ready = record { machine = hosted.machine; on = mpx_on-configured 3 m };
      hosted = hosted;
    } in
    let p = run_tests-Passes tests tests-AllAlways (configured 3 m) start in
    let after = (run_tests tests (configured 3 m)).1 in
    (
      true ∷ ((run_tests tests (configured 3 m)).0 ++ true ∷ []),
      configured 0 after,
      rw (init_ok cpu supported h, finish_ok cpu supported p.live.hosted),
      length-framed (run_tests tests (configured 3 m)).0 true true
          ∙ ap (λ n. 2 + n) (length-run_tests (configured 3 m)),
      (refl, AllTrue-append _ _ p.asserts (refl, tt)),
    )
