-- ===== src/Traversal/Examples.antt =====
-- Both traversals of a buffer of 64 bytes.
use simplex.Base.{◌≤◌, ◌≡◌, ◌≢◌, ◌↔◌, refl, arith, true, none, []}
use simplex.Machine.{mpx_on}
use simplex.Machine.Samples.{active}
use simplex.Traversal.{Core, gptraverse, mpxtraverse}
use simplex.Traversal.Outcomes.{IsCore, rounds, halves_in, Traverses}
use simplex.Traversal.Gp.{gptraverse-Traverses}
use simplex.Traversal.Mpx.{mpxtraverse-Traverses}
use simplex.Traversal.Together.{traversals_iff, Loads, traversals-Loads}

abbrev sample : Core
sample = record {
  gpr = record { rax = 1; rcx = 2; rdx = 3; rsi = 64; rdi = 0x10000; rbp = 4; r8 = 5; r9 = 6 };
  machine = active;
  loads = [];
}

sample-IsCore : IsCore sample
sample-IsCore = record {
  rax = omega arith;
  rcx = omega arith;
  rdx = omega arith;
  rsi = omega arith;
  rdi = omega arith;
  rbp = omega arith;
  r8 = omega arith;
  r9 = omega arith;
  rsp = omega arith;
}

sample-on : mpx_on sample.machine ≡ true
unfolding mpx_on
sample-on = refl

gptraverse-Traverses_example :
    Traverses 48
      (record (sample.gpr) { rcx = 3; rdx = 2; rsi = 0x10020 })
      active.bnds
      sample
      (gptraverse 32 sample)
gptraverse-Traverses_example = gptraverse-Traverses sample sample-IsCore 32 (omega arith)

mpxtraverse-Traverses_example :
    Traverses 80
      (record (sample.gpr) { rsi = 32 })
      (halves_in sample)
      sample
      (mpxtraverse 40 sample)
mpxtraverse-Traverses_example =
    mpxtraverse-Traverses sample sample-IsCore sample-on 40 (omega arith)

traversals_iff_example :
    ((gptraverse 31 sample ≢ none) ↔ (rounds 64 ≤ 31))
    × ((mpxtraverse 31 sample ≢ none) ↔ (rounds 64 ≤ 31))
traversals_iff_example = traversals_iff sample sample-IsCore sample-on 31

traversals-Loads_example :
    Loads 0x10000 32 (gptraverse 32 sample) × Loads 0x10000 32 (mpxtraverse 32 sample)
traversals-Loads_example =
    traversals-Loads sample sample-IsCore sample-on (omega arith) (omega arith) refl 32
      (omega arith)
