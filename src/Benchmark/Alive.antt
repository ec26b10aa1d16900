-- ===== src/Benchmark/Alive.antt =====
-- The machines that a benchmark runs on, and those that a tear-down leaves.
use simplex.Base.{◌≡◌, ◌∙◌, true, false}
use simplex.Machine.{Machine, mpx_on}
use simplex.Machine.Bytes.{Memory}
use simplex.Bounds.Frame.{Keeps, Keeps-mpx_on}
use simplex.Runtime.Xsave.{init_bnds}
use simplex.Runtime.Outcomes.{configured}
use simplex.Runtime.Lifecycle.{IsHosted, Keeps-IsHosted, mpx_on-configured}
use simplex.SimplexString.Pointers.{AreBytes}
use simplex.Benchmark.Filled.{written-IsHosted}

-- What every benchmark finds and leaves.
pub record IsAlive (m : Machine) : Type 0 where
  pub hosted : IsHosted m
  pub on : mpx_on m ≡ true

module _ {m : Machine} (a : IsAlive m) where
  pub Keeps-IsAlive : {m' : Machine} → Keeps m m' → IsAlive m'
  Keeps-IsAlive k = record { hosted = Keeps-IsHosted k a.hosted; on = Keeps-mpx_on k ∙ a.on }

  pub written-IsAlive : (mem : Memory) → AreBytes mem → IsAlive (record m { mem = mem })
  unfolding mpx_on
  written-IsAlive mem h = record { hosted = written-IsHosted a.hosted mem h; on = a.on }

-- MPX off, and every bounds register in its initial state.
pub record IsCleared (m : Machine) : Type 0 where
  pub off : mpx_on m ≡ false
  pub bnds : m.bnds ≡ init_bnds

pub configured-IsCleared : {m : Machine} → IsHosted m → IsCleared (configured 0 m)
configured-IsCleared {m} h = record { off = mpx_on-configured 0 m; bnds = rw h.has_bndregs }
