-- ===== src/Traversal/Gp.antt =====
-- `gptraverse`, which keeps the two bases in RDI and RSI.
use simplex.Base.{ℕ, suc, ◌≤◌, ◌<◌, ◌≡◌, refl, ap, ◌∙◌, arith, none}
use simplex.Traversal.{Core, exit_by, gp_enter, gp_exit, gp_fetch, gptraverse, unhide, push, pop}
use simplex.Traversal.Frame.{Spares, Spares-refl, push_six-SixPopped}
use simplex.Traversal.Rounds.{visits, Fetches, Finishes, loop-Finishes, loop-none}
use simplex.Traversal.Outcomes.{
  IsCore, middle, rounds, Traverses, before_last, before_last_lem, before_last_fits,
  before_last_gap,
}

-- The bases are where the loop looks for them.
record HasBases (low high : ℕ) (c : Core) : Type 0 where
  rdi : c.gpr.rdi ≡ low
  rsi : c.gpr.rsi ≡ high

gp-Fetches : (low high : ℕ) → Fetches gp_fetch low high 0 (HasBases low high)
unfolding gp_fetch unhide
gp-Fetches low high = record {
  gpr = λ c h. rw (h.rdi, h.rsi);
  loads = λ c h. refl;
  spares = λ c h. Spares-refl 0 c.machine;
  bnds = λ c h. refl;
  next = λ c h. record { rdi = h.rdi; rsi = h.rsi };
}

module _ (c : Core) (ok : IsCore c) where
  entered : HasBases c.gpr.rdi (middle c) (gp_enter c)
  unfolding gp_enter
  entered = record { rdi = refl; rsi = refl }

  gp_exit_lem :
      (c' : Core)
      → c'.gpr.rdi ≡ c.gpr.rdi
      → c'.gpr.rsi ≡ middle c
      → Spares 0 (gp_enter c).machine c'.machine
      → ((gp_exit c').gpr ≡ record (c.gpr) { rcx = c.gpr.rdx; rdx = c.gpr.rcx; rsi = middle c })
        × Spares 48 c.machine (gp_exit c').machine
  unfolding gp_enter gp_exit
  gp_exit_lem c' di si s =
      let p =
        push_six-SixPopped c.gpr.rbp c.gpr.rax c.gpr.rdx c.gpr.rcx c.gpr.r8 c.gpr.r9 0 c.machine
          c'.machine ok.rbp ok.rax ok.rdx ok.rcx ok.r8 ok.r9 ok.rsp (omega arith) s in
      (
        λ i. record {
          rax = p.second i;
          rcx = p.third i;
          rdx = p.fourth i;
          rsi = si i;
          rdi = di i;
          rbp = p.first i;
          r8 = p.fifth i;
          r9 = p.sixth i;
        },
        p.spares,
      )

  finishes :
      (fuel : ℕ)
      → rounds c.gpr.rsi ≤ fuel
      → Finishes gp_fetch c.gpr.rdi (middle c) 0 fuel (suc (before_last c.gpr.rsi)) (gp_enter c)
  unfolding gp_enter
  finishes fuel enough =
      loop-Finishes (gp-Fetches c.gpr.rdi (middle c)) (before_last c.gpr.rsi) fuel (gp_enter c)
        entered (before_last_gap c ok) (before_last_fits c.gpr.rsi ok.rsi)
        (omega (arith, before_last_lem c.gpr.rsi))

  start_loads :
      visits c.gpr.rdi
        (middle c)
        (gp_enter c).gpr.rdx
        (suc (before_last c.gpr.rsi))
        (gp_enter c).loads
      ≡ visits c.gpr.rdi (middle c) 0 (rounds c.gpr.rsi) c.loads
  unfolding gp_enter
  start_loads = ap (λ (n : ℕ). visits c.gpr.rdi (middle c) 0 n c.loads) (before_last_lem c.gpr.rsi)

  -- On a machine of 64-bit registers, and with fuel for a round for each byte of half the size (or for 2 ^
  -- 64 rounds where the size is 0 or 1), `gptraverse` ends; it has restored RAX, RBP, RDI, R8 and R9,
  -- exchanged RCX and RDX, and left the middle of the buffer in RSI; it has loaded from both halves in
  -- step, and changed no memory but the 48 bytes below its stack pointer.
  pub gptraverse-Traverses :
      (fuel : ℕ)
      → rounds c.gpr.rsi ≤ fuel
      → Traverses 48
          (record (c.gpr) { rcx = c.gpr.rdx; rdx = c.gpr.rcx; rsi = middle c })
          c.machine.bnds
          c
          (gptraverse fuel c)
  unfolding gptraverse
  gptraverse-Traverses fuel enough =
      let r = finishes fuel enough in
      let x = gp_exit_lem r.final (r.rdi ∙ entered.rdi) (r.rsi ∙ entered.rsi) r.spares in
      record {
        final = gp_exit r.final;
        ends = ap (exit_by gp_exit) r.ends;
        gpr = x.0;
        loads = exit_loads r.final ∙ r.loads ∙ start_loads;
        spares = x.1;
        bnds = exit_bnds r.final ∙ r.bnds ∙ enter_bnds;
      }
    where
      exit_loads : (c' : Core) → (gp_exit c').loads ≡ c'.loads
      exit_loads c' = unfold gp_exit in refl

      exit_bnds : (c' : Core) → (gp_exit c').machine.bnds ≡ c'.machine.bnds
      exit_bnds c' = unfold gp_exit in unfold pop in refl

      enter_bnds : (gp_enter c).machine.bnds ≡ c.machine.bnds
      enter_bnds = unfold gp_enter in unfold push in refl

  pub gptraverse-none : (fuel : ℕ) → fuel < rounds c.gpr.rsi → gptraverse fuel c ≡ none
  unfolding gptraverse
  gptraverse-none fuel short = ap (exit_by gp_exit) (
      loop-none (gp-Fetches c.gpr.rdi (middle c)) (before_last c.gpr.rsi) fuel (gp_enter c) entered
        (unfold gp_enter in before_last_gap c ok)
        (unfold gp_enter in before_last_fits c.gpr.rsi ok.rsi)
        (omega (arith, before_last_lem c.gpr.rsi)))
