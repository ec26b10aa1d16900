-- ===== src/Traversal/Mpx.antt =====
-- `mpxtraverse`, which keeps the two bases in BND0 and BND1.
use simplex.Base.{
  ℕ, suc, ◌+◌, ◌/◌, ◌%◌, ◌^◌, ◌≤◌, ◌<◌, ◌≡◌, refl, ap, ◌∙◌, arith, true, none, add64, sub64, not64,
  IsWord,
}
use simplex.Machine.{Machine, mpx_on, bnd0, bnd1, bndmk, put}
use simplex.Traversal.{Core, exit_by, push, pop, mpx_enter, mpx_exit, mpx_fetch, mpxtraverse}
use simplex.Traversal.Frame.{Spares, Spares-trans, push_six, push_six-SixPopped}
use simplex.Traversal.Rounds.{visits, Fetches, loop-Finishes, loop-none}
use simplex.Traversal.Outcomes.{
  IsCore, middle, rounds, halves_in, Traverses, before_last, before_last_lem, before_last_fits,
  before_last_gap,
}
use simplex.Traversal.Spill.{HoldsBases, mpx-Fetches}

-- The two `bndmk`.
abbrev bounded : ℕ → ℕ → ℕ → Machine → Machine
bounded low high last m = (bndmk bnd1 high last (bndmk bnd0 low last m).1).1

bounded_lem :
    (low high last : ℕ) (m : Machine)
    → mpx_on m ≡ true
    → bounded low high last m ≡ record m {
      bnds =
          put bnd1
            (record { lb = high; ub = not64 (add64 high last) })
            (put bnd0 (record { lb = low; ub = not64 (add64 low last) }) m.bnds);
    }
unfolding bndmk mpx_on
bounded_lem low high last m on = simp on

module _ (low high last : ℕ) (m : Machine) (on : mpx_on m ≡ true) where
  bounded-Spares : Spares 32 m (bounded low high last m)
  bounded-Spares =
      rw (bounded_lem low high last m on) (record { rsp = refl; mem = λ x h. refl; rest = refl })

  bounded-on : mpx_on (bounded low high last m) ≡ true
  bounded-on = rw (bounded_lem low high last m on) (unfold mpx_on in on)

  bounded-first : ((bounded low high last m).bnds bnd0).lb ≡ low
  bounded-first = rw (bounded_lem low high last m on)

  bounded-second : ((bounded low high last m).bnds bnd1).lb ≡ high
  bounded-second = rw (bounded_lem low high last m on)

module _ (c : Core) (ok : IsCore c) (on : mpx_on c.machine ≡ true) where
  abbrev pushed : Machine
  pushed = push_six c.gpr.rbp c.gpr.rax c.gpr.rcx c.gpr.rdx c.gpr.r8 c.gpr.r9 c.machine

  abbrev last : ℕ
  last = sub64 (c.gpr.rsi / 2) 1

  pushed-on : mpx_on pushed ≡ true
  unfolding push mpx_on
  pushed-on = on

  entered-Spares : Spares 32 pushed (mpx_enter c).machine
  unfolding mpx_enter
  entered-Spares = bounded-Spares c.gpr.rdi (add64 c.gpr.rdi (c.gpr.rsi / 2)) last pushed pushed-on

  pushed-rsp : IsWord pushed.rsp
  unfolding push
  pushed-rsp = omega arith

  entered : HoldsBases c.gpr.rdi (middle c) (mpx_enter c)
  unfolding mpx_enter
  entered = record {
    rsp =
        rw (bounded-Spares c.gpr.rdi (add64 c.gpr.rdi (c.gpr.rsi / 2)) last pushed pushed-on).rsp
          pushed-rsp;
    on = bounded-on c.gpr.rdi (add64 c.gpr.rdi (c.gpr.rsi / 2)) last pushed pushed-on;
    first = bounded-first c.gpr.rdi (add64 c.gpr.rdi (c.gpr.rsi / 2)) last pushed pushed-on;
    second =
        bounded-second c.gpr.rdi (add64 c.gpr.rdi (c.gpr.rsi / 2)) last pushed pushed-on
        ∙ omega arith;
  }

  mpx_exit_lem :
      (c' : Core)
      → c'.gpr.rdi ≡ c.gpr.rdi
      → c'.gpr.rsi ≡ c.gpr.rsi / 2
      → Spares 32 (mpx_enter c).machine c'.machine
      → ((mpx_exit c').gpr ≡ record (c.gpr) { rsi = c.gpr.rsi / 2 })
        × Spares 80 c.machine (mpx_exit c').machine
  unfolding mpx_exit
  mpx_exit_lem c' di si s =
      let p =
        push_six-SixPopped c.gpr.rbp c.gpr.rax c.gpr.rcx c.gpr.rdx c.gpr.r8 c.gpr.r9 32 c.machine
          c'.machine ok.rbp ok.rax ok.rcx ok.rdx ok.r8 ok.r9 ok.rsp (omega arith)
          (Spares-trans entered-Spares s) in
      (
        λ i. record {
          rax = p.second i;
          rcx = p.third i;
          rdx = p.fourth i;
          rsi = si i;
          rdi = di i;
          rbp = p.first i;
          r8 = p.fifth i;
          r9 = p.sixth i;
        },
        p.spares,
      )

  entered_regs : ((mpx_enter c).gpr.rdi ≡ c.gpr.rdi) × ((mpx_enter c).gpr.rsi ≡ c.gpr.rsi / 2)
  unfolding mpx_enter
  entered_regs = (refl, refl)

  entered_gap :
      middle c ≡ add64 c.gpr.rdi (((mpx_enter c).gpr.rdx + suc (before_last c.gpr.rsi)) % 2 ^ 64)
  unfolding mpx_enter
  entered_gap = before_last_gap c ok

  entered_fits : (mpx_enter c).gpr.rdx + suc (before_last c.gpr.rsi) ≤ 2 ^ 64
  unfolding mpx_enter
  entered_fits = before_last_fits c.gpr.rsi ok.rsi

  start_loads :
      visits c.gpr.rdi
        (middle c)
        (mpx_enter c).gpr.rdx
        (suc (before_last c.gpr.rsi))
        (mpx_enter c).loads
      ≡ visits c.gpr.rdi (middle c) 0 (rounds c.gpr.rsi) c.loads
  unfolding mpx_enter
  start_loads = ap (λ (n : ℕ). visits c.gpr.rdi (middle c) 0 n c.loads) (before_last_lem c.gpr.rsi)

  entered-bnds : (mpx_enter c).machine.bnds ≡ halves_in c
  unfolding mpx_enter push
  entered-bnds =
      ap (λ (m : Machine). m.bnds)
        (bounded_lem c.gpr.rdi (add64 c.gpr.rdi (c.gpr.rsi / 2)) last pushed pushed-on)

  exit_bnds : (c' : Core) → (mpx_exit c').machine.bnds ≡ c'.machine.bnds
  unfolding mpx_exit pop
  exit_bnds c' = refl

  exit_loads : (c' : Core) → (mpx_exit c').loads ≡ c'.loads
  unfolding mpx_exit
  exit_loads c' = refl

  fetches : Fetches mpx_fetch c.gpr.rdi (middle c) 32 (HoldsBases c.gpr.rdi (middle c))
  fetches = mpx-Fetches c.gpr.rdi (middle c) ok.rdi (omega arith)

  -- On a machine of 64-bit registers with MPX on, whose branches keep the bounds registers as they do while
  -- BNDPRESERVE is set, and with fuel for a round for each byte of half the size (or for 2 ^ 64 rounds
  -- where the size is 0 or 1), `mpxtraverse` ends; it has restored every general register but RSI, which
  -- holds half the size; it has left the bounds of the two halves in BND0 and BND1, and the other bounds
  -- registers as they were; it has loaded from both halves in step, and changed no memory but the 80 bytes
  -- below its stack pointer.
  pub mpxtraverse-Traverses :
      (fuel : ℕ)
      → rounds c.gpr.rsi ≤ fuel
      → Traverses 80 (record (c.gpr) { rsi = c.gpr.rsi / 2 }) (halves_in c) c (mpxtraverse fuel c)
  unfolding mpxtraverse
  mpxtraverse-Traverses fuel enough =
      let r =
        loop-Finishes fetches (before_last c.gpr.rsi) fuel (mpx_enter c) entered entered_gap
          entered_fits (omega (arith, before_last_lem c.gpr.rsi)) in
      let x = mpx_exit_lem r.final (r.rdi ∙ entered_regs.0) (r.rsi ∙ entered_regs.1) r.spares in
      record {
        final = mpx_exit r.final;
        ends = ap (exit_by mpx_exit) r.ends;
        gpr = x.0;
        loads = exit_loads r.final ∙ r.loads ∙ start_loads;
        spares = x.1;
        bnds = exit_bnds r.final ∙ r.bnds ∙ entered-bnds;
      }

  pub mpxtraverse-none : (fuel : ℕ) → fuel < rounds c.gpr.rsi → mpxtraverse fuel c ≡ none
  unfolding mpxtraverse
  mpxtraverse-none fuel short = ap (exit_by mpx_exit) (
      loop-none fetches (before_last c.gpr.rsi) fuel (mpx_enter c) entered entered_gap entered_fits
        (omega (arith, before_last_lem c.gpr.rsi)))
