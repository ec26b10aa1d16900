-- ===== src/Benchmark/LoadStore.antt =====
-- `LoadStoreFixture` of simplex/eval/benchmark/benchmark.cpp: five places that a program can hide a word in,
-- and a benchmark that stores `val` there and one that loads it.
pub mod Trips
pub mod Words
pub mod Running
pub mod Lifetime
mod Examples
use simplex.Base.{
  ℕ, ◌%◌, ◌^◌, ◌==◌, Bool, not, if◌then◌else◌, Option, none, some, List, [], ◌∷◌, add64,
}
use simplex.Cpuid.{Cpu}
use simplex.Machine.{bnd0, Machine, slot, bndmk}
use simplex.Machine.Bytes.{Memory, store64, load64}
use simplex.Bounds.Accessors.{spill_lower}
use simplex.Runtime.Xsave.{Outcome, Fault, ok, fault, general_protection}
use simplex.Runtime.Process.{process_specific_init, process_specific_finish}

-- The registers that the benchmarks use besides those of MPX, and the members `val` and `clave`.
pub record Processor : Type 0 where
  pub machine : Machine
  pub r15 : ℕ
  pub gs : ℕ
  pub gs_base : ℕ
  pub mm0 : ℕ
  pub xmm1_low : ℕ
  pub xmm1_high : ℕ
  pub val : ℕ
  pub clave : ℕ

pub data Ended : Type 0 where
  returns : Processor → Ended
  faults : Fault → Ended

abbrev pub and_then : Ended → (Processor → Ended) → Ended
and_then (returns p) k = k p
and_then (faults e) k = faults e

-- A function of the machine alone, whose result is not looked at.
abbrev on_machine : {A : Type 0} → Processor → Outcome A → Ended
on_machine p (ok a m) = returns (record p { machine = m })
on_machine p (fault e) = faults e

abbrev pub with_mem : Memory → Processor → Processor
with_mem mem p = record p { machine = record (p.machine) { mem = mem } }

pub data Place : Type 0 where
  gp seg mmx xmm bnd : Place

-- `movaps` faults on an address that is no multiple of 16.
abbrev pub aligned : Processor → Bool
aligned p = slot 0x80 p.machine % 16 == 0

unfoldable pub store : Place → Processor → Ended
unfolding bndmk
store gp p = returns (record p { r15 = p.val })
store seg p = returns (with_mem (store64 p.machine.mem p.gs_base p.val) p)
store mmx p = returns (record p { mm0 = p.val })
store xmm p =
    let a = slot 0x80 p.machine in
    let mem' = store64 p.machine.mem a p.val in
    if not (aligned p)
    then faults general_protection
    else returns
        (record (with_mem mem' p) { xmm1_low = load64 mem' a; xmm1_high = load64 mem' (add64 a 8) })
store bnd p = returns (record p { machine = (bndmk bnd0 p.val 0 p.machine).1 })

-- `mov %gs` reads the selector, not the word that `%gs:0` holds.
unfoldable pub load : Place → Processor → Ended
unfolding spill_lower
load gp p = returns (record p { val = p.r15 })
load seg p = returns (record p { val = p.gs })
load mmx p = returns (record p { val = p.mm0 })
load xmm p =
    let a = slot 0x80 p.machine in
    let mem' = store64 (store64 p.machine.mem a p.xmm1_low) (add64 a 8) p.xmm1_high in
    if not (aligned p)
    then faults general_protection
    else returns (record (with_mem mem' p) { val = load64 mem' a })
load bnd p = let r = spill_lower bnd0 p.machine in returns (record p { machine = r.1; val = r.0 })

pub data Benchmark : Type 0 where
  stores loads : Place → Benchmark

unfoldable pub body : Benchmark → Processor → Ended
unfolding store load
body (stores place) = store place
body (loads place) = load place

unfoldable pub bodies : List Benchmark → Processor → Ended
unfolding body
bodies [] p = returns p
bodies (b ∷ bs) p = and_then (body b p) (bodies bs)

-- The kernel: `syscall` on a number and two arguments, what `mmap` returned, and what `munmap` does to memory.
pub record Kernel : Type 0 where
  pub syscall : ℕ → ℕ → ℕ → Processor → Processor
  pub sys_arch_prctl : ℕ
  pub arch_set_gs : ℕ
  pub mapped : ℕ
  pub munmap : ℕ → Memory → Memory

-- `urandom` is the word that was read, or `none` where the file did not open.
abbrev pub first_word : Option ℕ → ℕ
first_word none = 0xdeadbeef
first_word (some word) = word

unfoldable pub arch_prctl : Kernel → ℕ → ℕ → Processor → Processor
arch_prctl k code addr = k.syscall k.sys_arch_prctl code addr

module _ (k : Kernel) (cpu : Cpu) where
  unfoldable pub set_up : Option ℕ → Processor → Ended
  unfolding arch_prctl process_specific_init
  set_up urandom p =
      let p1 = record p { val = first_word urandom } in
      and_then (on_machine p1 (process_specific_init cpu p1.machine)) (λ p2.
        let p3 = record p2 { clave = k.mapped } in returns (arch_prctl k k.arch_set_gs p3.clave p3))

  unfoldable pub tear_down : Processor → Ended
  unfolding process_specific_finish
  tear_down p =
      and_then (on_machine p (process_specific_finish cpu p.machine))
        (λ p'. returns (with_mem (k.munmap p'.clave p'.machine.mem) p'))

  unfoldable pub lifetime : Option ℕ → List Benchmark → Processor → Ended
  unfolding set_up bodies tear_down
  lifetime urandom bs p = and_then (set_up urandom p) (λ p'. and_then (bodies bs p') tear_down)
