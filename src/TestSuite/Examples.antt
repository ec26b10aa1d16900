-- ===== src/TestSuite/Examples.antt =====
-- The suite on a processor with MPX.
use simplex.Base.{◌≡◌, Bool, List}
use simplex.Cpuid.Samples.{intel_cpu}
use simplex.Machine.{Machine}
use simplex.Machine.Samples.{idle}
use simplex.Runtime.Xsave.{ok}
use simplex.Runtime.Examples.{idle-IsHosted, intel_cpu-supported}
use simplex.TestSuite.{suite}
use simplex.TestSuite.Loops.{AllTrue}
use simplex.TestSuite.Suite.{length, suite-AllTrue}

suite-AllTrue_example :
    (results : List Bool) × (final : Machine) × (suite intel_cpu idle ≡ ok results final)
    × (length results ≡ 50)
    × AllTrue results
suite-AllTrue_example = suite-AllTrue intel_cpu idle intel_cpu-supported idle-IsHosted
