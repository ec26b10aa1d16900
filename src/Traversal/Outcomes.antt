-- ===== src/Traversal/Outcomes.antt =====
-- What a traversal does, from its entry to its `ret`.
use simplex.Base.{
  ℕ, suc, ◌+◌, ◌-◌, ◌/◌, ◌%◌, ◌^◌, ◌≤◌, ◌≡◌, arith, Option, some, ◌==◌, if◌then◌else◌, add64, sub64,
  not64, IsWord,
}
use simplex.Machine.{BndFile, bnd0, bnd1, put}
use simplex.Traversal.{Gpr, Core}
use simplex.Traversal.Frame.{Spares}
use simplex.Traversal.Rounds.{visits}

-- The registers hold words.
pub record IsCore (c : Core) : Type 0 where
  pub rax : IsWord c.gpr.rax
  pub rcx : IsWord c.gpr.rcx
  pub rdx : IsWord c.gpr.rdx
  pub rsi : IsWord c.gpr.rsi
  pub rdi : IsWord c.gpr.rdi
  pub rbp : IsWord c.gpr.rbp
  pub r8 : IsWord c.gpr.r8
  pub r9 : IsWord c.gpr.r9
  pub rsp : IsWord c.machine.rsp

-- The address of the second half of the buffer.
abbrev pub middle : Core → ℕ
middle c = add64 (c.gpr.rsi / 2) c.gpr.rdi

-- The loop runs once for each byte of a half; with a buffer of fewer than two bytes it runs until
-- the counter is 0 again.
abbrev pub rounds : ℕ → ℕ
rounds sz = if sz / 2 == 0 then 2 ^ 64 else sz / 2

-- The bounds registers with the two halves of the buffer in BND0 and BND1.
abbrev pub halves_in : Core → BndFile
halves_in c =
    let half = c.gpr.rsi / 2 in
    let last = sub64 half 1 in
    let low = c.gpr.rdi in
    let high = add64 c.gpr.rdi half in
    put bnd1 (record { lb = high; ub = not64 (add64 high last) })
      (put bnd0 (record { lb = low; ub = not64 (add64 low last) }) c.machine.bnds)

-- A traversal that ends with the registers `g'` and the bounds registers `bnds'`, has loaded from both
-- halves in step, and has changed no memory but `depth` bytes below the stack pointer.
pub record Traverses (depth : ℕ) (g' : Gpr) (bnds' : BndFile) (c : Core) (result : Option Core)
    : Type 0 where
  pub final : Core
  pub ends : result ≡ some final
  pub gpr : final.gpr ≡ g'
  pub loads : final.loads ≡ visits c.gpr.rdi (middle c) 0 (rounds c.gpr.rsi) c.loads
  pub spares : Spares depth c.machine final.machine
  pub bnds : final.machine.bnds ≡ bnds'

-- The loop's count, as a successor.
pub before_last : ℕ → ℕ
before_last sz = rounds sz - 1

pub before_last_lem : (sz : ℕ) → suc (before_last sz) ≡ rounds sz
unfolding before_last
before_last_lem sz = ground arith

pub before_last_fits : (sz : ℕ) → IsWord sz → 0 + suc (before_last sz) ≤ 2 ^ 64
unfolding before_last
before_last_fits sz h = ground arith

pub before_last_gap :
    (c : Core) → IsCore c → middle c ≡ add64 c.gpr.rdi ((0 + suc (before_last c.gpr.rsi)) % 2 ^ 64)
unfolding before_last
before_last_gap c ok = ground arith
