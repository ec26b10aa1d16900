-- ===== src/Traversal/Rounds.antt =====
-- The loop that both traversals run: when it ends, and which addresses it has loaded from.
use simplex.Base.{
  ℕ, zero, suc, ◌+◌, ◌%◌, ◌^◌, ◌≤◌, ◌<◌, ◌≡◌, refl, ap, ap₂, ◌∙◌, arith, true, false, none, some,
  List, ◌∷◌, ◌==◌, add64,
}
use simplex.Traversal.{Core, unhide, loop}
use simplex.Traversal.Frame.{Spares, Spares-trans}

-- The loads of `count` rounds from the offset `i` on, before those in `rest`.
unfoldable pub visits : ℕ → ℕ → ℕ → ℕ → List ℕ → List ℕ
visits low high i zero rest = rest
visits low high i (suc count) rest =
    visits low high (add64 i 1) count (add64 high i ∷ add64 low i ∷ rest)

-- Code that puts the two bases into RAX and RCX, under an invariant.
pub record Fetches (fetch : Core → Core) (low high depth : ℕ) (Inv : Core → Type 0) : Type 0 where
  pub gpr : (c : Core) → Inv c → (fetch c).gpr ≡ record (c.gpr) { rax = low; rcx = high }
  pub loads : (c : Core) → Inv c → (fetch c).loads ≡ c.loads
  pub spares : (c : Core) → Inv c → Spares depth c.machine (fetch c).machine
  pub bnds : (c : Core) → Inv c → (fetch c).machine.bnds ≡ c.machine.bnds
  pub next : (c : Core) → Inv c → Inv (unhide (fetch c))

-- How a loop ends.
pub record Finishes (fetch : Core → Core) (low high depth fuel count : ℕ) (c : Core) : Type 0 where
  pub final : Core
  pub ends : loop fetch fuel c ≡ some final
  pub loads : final.loads ≡ visits low high c.gpr.rdx count c.loads
  pub spares : Spares depth c.machine final.machine
  pub bnds : final.machine.bnds ≡ c.machine.bnds
  pub rsi : final.gpr.rsi ≡ c.gpr.rsi
  pub rdi : final.gpr.rdi ≡ c.gpr.rdi

module _ {fetch : Core → Core} {low high depth : ℕ} {Inv : Core → Type 0}
    (f : Fetches fetch low high depth Inv) where
  -- One round.
  module _ {c : Core} (inv : Inv c) where
    abbrev after : Core
    after = unhide (fetch c)

    after-rax : after.gpr.rax ≡ add64 low (add64 c.gpr.rdx 1)
    unfolding unhide
    after-rax = rw (f.gpr c inv)

    after-rcx : after.gpr.rcx ≡ high
    unfolding unhide
    after-rcx = rw (f.gpr c inv)

    after-rdx : after.gpr.rdx ≡ add64 c.gpr.rdx 1
    unfolding unhide
    after-rdx = rw (f.gpr c inv)

    after-rsi : after.gpr.rsi ≡ c.gpr.rsi
    unfolding unhide
    after-rsi = rw (f.gpr c inv)

    after-rdi : after.gpr.rdi ≡ c.gpr.rdi
    unfolding unhide
    after-rdi = rw (f.gpr c inv)

    after-loads : after.loads ≡ add64 high c.gpr.rdx ∷ add64 low c.gpr.rdx ∷ c.loads
    unfolding unhide
    after-loads = rw (f.gpr c inv, f.loads c inv)

    after-Spares : Spares depth c.machine after.machine
    unfolding unhide
    after-Spares = f.spares c inv

    after-bnds : after.machine.bnds ≡ c.machine.bnds
    unfolding unhide
    after-bnds = f.bnds c inv

    test_last :
        high ≡ add64 low ((c.gpr.rdx + 1) % 2 ^ 64) → (after.gpr.rax == after.gpr.rcx) ≡ true
    test_last e = rw (after-rax, after-rcx, e) (ground arith)

    test_more :
        (count : ℕ)
        → high ≡ add64 low ((c.gpr.rdx + suc (suc count)) % 2 ^ 64)
        → c.gpr.rdx + suc (suc count) ≤ 2 ^ 64
        → (after.gpr.rax == after.gpr.rcx) ≡ false
    test_more count e l = rw (after-rax, after-rcx, e) (ground arith)

    ahead :
        (count : ℕ)
        → c.gpr.rdx + suc (suc count) ≤ 2 ^ 64
        → (c.gpr.rdx + suc (suc count)) % 2 ^ 64 ≡ (after.gpr.rdx + suc count) % 2 ^ 64
    ahead count l = rw after-rdx (omega arith)

    within : (count : ℕ) → c.gpr.rdx + suc (suc count) ≤ 2 ^ 64 → after.gpr.rdx + suc count ≤ 2 ^ 64
    within count l = rw after-rdx (omega arith)

  -- With `high` ahead of `low` by `count` more than the counter, `count` rounds are enough.
  pub loop-Finishes :
      (count fuel : ℕ) (c : Core)
      → Inv c
      → high ≡ add64 low ((c.gpr.rdx + suc count) % 2 ^ 64)
      → c.gpr.rdx + suc count ≤ 2 ^ 64
      → suc count ≤ fuel
      → Finishes fetch low high depth fuel (suc count) c
  unfolding loop visits
  loop-Finishes count zero c inv e l enough = absurd (omega arith)
  loop-Finishes zero (suc fuel) c inv e l enough = record {
    final = after inv;
    ends = rw (test_last inv e);
    loads = after-loads inv;
    spares = after-Spares inv;
    bnds = after-bnds inv;
    rsi = after-rsi inv;
    rdi = after-rdi inv;
  }
  loop-Finishes (suc count) (suc fuel) c inv e l enough =
      let r =
        loop-Finishes count fuel (after inv) (f.next c inv) (e ∙ ap (add64 low) (ahead inv count l))
          (within inv count l) (omega arith) in
      record {
        final = r.final;
        ends = rw (test_more inv count e l) r.ends;
        loads =
            r.loads
            ∙ ap₂ (λ i rest. visits low high i (suc count) rest) (after-rdx inv) (after-loads inv);
        spares = Spares-trans (after-Spares inv) r.spares;
        bnds = r.bnds ∙ after-bnds inv;
        rsi = r.rsi ∙ after-rsi inv;
        rdi = r.rdi ∙ after-rdi inv;
      }

  -- Fewer are not.
  pub loop-none :
      (count fuel : ℕ) (c : Core)
      → Inv c
      → high ≡ add64 low ((c.gpr.rdx + suc count) % 2 ^ 64)
      → c.gpr.rdx + suc count ≤ 2 ^ 64
      → fuel < suc count
      → loop fetch fuel c ≡ none
  unfolding loop
  loop-none count zero c inv e l short = refl
  loop-none zero (suc fuel) c inv e l short = absurd (omega arith)
  loop-none (suc count) (suc fuel) c inv e l short = rw (test_more inv count e l) (
      loop-none count fuel (after inv) (f.next c inv) (e ∙ ap (add64 low) (ahead inv count l))
        (within inv count l) (omega arith))
