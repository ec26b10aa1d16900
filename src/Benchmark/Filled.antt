-- ===== src/Benchmark/Filled.antt =====
-- The two helpers leave bytes in memory, and a machine stays hosted whatever bytes are there.
use simplex.Base.{ℕ, zero, suc, some, ◌+◌, ◌-◌, ◌%◌, ◌≤◌, ◌≡◌, ◌≢◌, arith, add64, sub64}
use simplex.Machine.{Machine}
use simplex.Machine.Bytes.{Memory}
use simplex.Runtime.Lifecycle.{IsHosted}
use simplex.SimplexString.Libgcc.{write}
use simplex.SimplexString.Pointers.{AreBytes, write-AreBytes}
use simplex.Benchmark.{randomize, randomize_loop, corrupt}
use simplex.Benchmark.Fixtures.{size}

module _ (rand : ℕ → ℕ) where
  randomize_loop-AreBytes :
      (rounds ptr c : ℕ) (mem : Memory)
      → AreBytes mem
      → AreBytes (randomize_loop rand rounds ptr c mem)
  unfolding randomize_loop
  randomize_loop-AreBytes zero ptr c mem h = h
  randomize_loop-AreBytes (suc rounds) ptr c mem h =
      randomize_loop-AreBytes rounds ptr (add64 c 1) (write mem (add64 ptr c) (rand c % 127 + 1))
        (write-AreBytes mem (add64 ptr c) (rand c % 127 + 1) (omega arith) h)

  pub randomize-AreBytes :
      (ptr sz : ℕ) (mem : Memory) → AreBytes mem → AreBytes (randomize rand ptr sz mem)
  unfolding randomize
  randomize-AreBytes ptr sz mem h x =
      let rounds = sub64 sz 1 in
      let done = randomize_loop rand rounds ptr 0 mem in
      ground (
        arith,
        h x,
        write-AreBytes done (add64 ptr rounds) 0 (omega arith)
            (randomize_loop-AreBytes rounds ptr 0 mem h) x,
      )

module _ (random : ℕ) (memcpy : ℕ → ℕ → ℕ → Memory → Memory)
    (bytes : (d s len : ℕ) (mem : Memory) → AreBytes mem → AreBytes (memcpy d s len mem)) where
  pub corrupt-AreBytes :
      (dst src sz : ℕ) (mem mem' : Memory)
      → dst ≢ 0
      → src ≢ 0
      → 1 ≤ sz
      → AreBytes mem
      → corrupt random memcpy dst src sz mem ≡ some mem'
      → AreBytes mem'
  corrupt-AreBytes dst src sz mem mem' hd hs lo h e =
      let after = memcpy dst src size mem in
      let a = add64 dst (random % sz) in
      let same : write after a (255 - after a) ≡ mem' = cc (corrupt_lem, e) in
      rw (← same) (write-AreBytes after a (255 - after a) (omega arith) (bytes dst src size mem h))
    where
      corrupt_lem : corrupt random memcpy dst src sz mem ≡ (
          let after = memcpy dst src size mem in
          let a = add64 dst (random % sz) in some (write after a (255 - after a)))
      corrupt_lem = unfold corrupt in ground arith

-- A hosted machine with other bytes in memory.
pub written-IsHosted :
    {m : Machine} → IsHosted m → (mem : Memory) → AreBytes mem → IsHosted (record m { mem = mem })
written-IsHosted h mem ok_mem = record {
  machine = record { lb_fits = h.machine.lb_fits; ub_fits = h.machine.ub_fits; bytes = ok_mem };
  os = h.os;
  has_bndregs = h.has_bndregs;
  has_bndcsr = h.has_bndcsr;
}
