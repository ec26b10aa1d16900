-- ===== src/Traversal.antt =====
-- The two loops simplex/eval/benchmark/gptraverse.S and simplex/eval/benchmark/mpxtraverse.S, instruction by
-- instruction, over the general registers that they use. `loads` lists the addresses that the loops
-- load data from, the latest first. `cmp` and `je` are one test, and the flags are not kept.
-- The branches of the loops have no BND prefix: they keep the bounds registers while BNDPRESERVE is set, as
-- `process_specific_init` leaves it, and the model supposes that it is.
pub mod Frame
pub mod Rounds
pub mod Outcomes
pub mod Gp
pub mod Spill
pub mod Mpx
pub mod Together
mod Examples
use simplex.Base.{
  ℕ, zero, suc, ◌+◌, ◌-◌, ◌/◌, ◌%◌, ◌^◌, Option, none, some, List, [], ◌∷◌, ◌==◌, if◌then◌else◌,
  add64, sub64, bit_xor,
}
use simplex.Machine.{Machine, bnd0, bnd1, M, ◌>>=◌, ◌>>◌, pure, slot, bndmk, bndmov, mov_load, andq}
use simplex.Machine.Bytes.{Memory, store64, load64}

pub record Gpr : Type 0 where
  pub rax : ℕ
  pub rcx : ℕ
  pub rdx : ℕ
  pub rsi : ℕ
  pub rdi : ℕ
  pub rbp : ℕ
  pub r8 : ℕ
  pub r9 : ℕ

pub record Core : Type 0 where
  pub gpr : Gpr
  pub machine : Machine
  pub loads : List ℕ

unfoldable pub push : ℕ → Machine → Machine
push v m = let rsp' = sub64 m.rsp 8 in record m { rsp = rsp'; mem = store64 m.mem rsp' v }

unfoldable pub pop : M ℕ
pop m = (load64 m.mem m.rsp, record m { rsp = add64 m.rsp 8 })

-- From `mov (%rax, %rdx, 1), %r8` to `add %rdx, %rax`, which the two loops share.
unfoldable pub unhide : Core → Core
unhide c =
    let g = c.gpr in
    let low = add64 g.rax g.rdx in
    let high = add64 g.rcx g.rdx in
    let r8' = load64 c.machine.mem low in
    let r9' = bit_xor (load64 c.machine.mem high) r8' in
    let rdx' = add64 g.rdx 1 in
    record c {
      gpr = record g { r8 = r8'; r9 = r9'; rdx = rdx'; rax = add64 g.rax rdx' };
      loads = high ∷ low ∷ c.loads;
    }

-- The label `continue`, with at most `fuel` rounds; `fetch` is what stands before the loads.
module _ (fetch : Core → Core) where
  unfoldable pub loop : ℕ → Core → Option Core
  loop zero c = none
  loop (suc fuel) c =
      let c' = unhide (fetch c) in
      let rest = loop fuel c' in if c'.gpr.rax == c'.gpr.rcx then some c' else rest

-- What stands behind the loop.
abbrev pub exit_by : (Core → Core) → Option Core → Option Core
exit_by exit none = none
exit_by exit (some c) = some (exit c)

-- `xor %rax, %rax` and so on.
abbrev clear : Gpr → Gpr
clear g = record g { rax = 0; rcx = 0; rdx = 0 }

unfoldable pub gp_fetch : Core → Core
gp_fetch c = record c { gpr = record (c.gpr) { rax = c.gpr.rdi; rcx = c.gpr.rsi } }

-- From the entry to the label, and from the label `exit` to its last `pop`.
unfoldable pub gp_enter : Core → Core
unfolding push
gp_enter c =
    let g = c.gpr in
    let m1 = push g.rbp c.machine in
    let m2 = push g.rax m1 in
    let m3 = push g.rdx m2 in
    let m4 = push g.rcx m3 in
    let m5 = push g.r8 m4 in
    let m6 = push g.r9 m5 in
    let half = g.rsi / 2 in
    record c { gpr = clear (record g { rbp = m1.rsp; rsi = add64 half g.rdi }); machine = m6 }

-- The pops come in the order r9, r8, rdx, rcx, which is not the reverse of the pushes.
unfoldable pub gp_exit : Core → Core
unfolding pop
gp_exit c =
    let (r9', m1) = pop c.machine in
    let (r8', m2) = pop m1 in
    let (rdx', m3) = pop m2 in
    let (rcx', m4) = pop m3 in
    let (rax', m5) = pop m4 in
    let (rbp', m6) = pop m5 in
    record c {
      gpr = record (c.gpr) { r9 = r9'; r8 = r8'; rdx = rdx'; rcx = rcx'; rax = rax'; rbp = rbp' };
      machine = m6;
    }

unfoldable pub gptraverse : ℕ → Core → Option Core
gptraverse fuel c = exit_by gp_exit (loop gp_fetch fuel (gp_enter c))

-- The bounds registers through the stack, which is cleared behind them.
unfoldable pub fetch_bounds : M (ℕ × ℕ)
fetch_bounds = do
  bndmov bnd0 0x10
  bndmov bnd1 0x20
  rax ← mov_load 0x10
  rcx ← mov_load 0x20
  andq 0 0x08
  andq 0 0x10
  andq 0 0x18
  andq 0 0x20
  pure (rax, rcx)

unfoldable pub mpx_fetch : Core → Core
mpx_fetch c =
    let ((rax', rcx'), m) = fetch_bounds c.machine in
    record c { gpr = record (c.gpr) { rax = rax'; rcx = rcx' }; machine = m }

unfoldable pub mpx_enter : Core → Core
unfolding push
mpx_enter c =
    let g = c.gpr in
    let m1 = push g.rbp c.machine in
    let m2 = push g.rax m1 in
    let m3 = push g.rcx m2 in
    let m4 = push g.rdx m3 in
    let m5 = push g.r8 m4 in
    let m6 = push g.r9 m5 in
    let half = g.rsi / 2 in
    let last = sub64 half 1 in
    let (_, m7) = bndmk bnd0 g.rdi last m6 in
    let (_, m8) = bndmk bnd1 (add64 g.rdi half) last m7 in
    record c { gpr = clear (record g { rbp = m1.rsp; rsi = half }); machine = m8 }

unfoldable pub mpx_exit : Core → Core
unfolding pop
mpx_exit c =
    let (r9', m1) = pop c.machine in
    let (r8', m2) = pop m1 in
    let (rdx', m3) = pop m2 in
    let (rcx', m4) = pop m3 in
    let (rax', m5) = pop m4 in
    let (rbp', m6) = pop m5 in
    record c {
      gpr = record (c.gpr) { r9 = r9'; r8 = r8'; rdx = rdx'; rcx = rcx'; rax = rax'; rbp = rbp' };
      machine = m6;
    }

unfoldable pub mpxtraverse : ℕ → Core → Option Core
mpxtraverse fuel c = exit_by mpx_exit (loop mpx_fetch fuel (mpx_enter c))
