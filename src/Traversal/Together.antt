-- ===== src/Traversal/Together.antt =====
-- The two traversals side by side: when they end, and what they load.
use native.Mathlib.Decide.{dec_lt}
use simplex.Base.{
  ℕ, zero, suc, ◌+◌, ◌*◌, ◌-◌, ◌/◌, ◌^◌, ◌≤◌, ◌<◌, ◌≡◌, ◌≢◌, ◌↔◌, ap, sym, ◌∙◌, arith, true, Option,
  none, some, List, [], ◌∷◌, add64, sub64,
}
use simplex.Machine.{BndFile, mpx_on}
use simplex.Traversal.{Gpr, Core, gptraverse, mpxtraverse}
use simplex.Traversal.Rounds.{visits}
use simplex.Traversal.Outcomes.{IsCore, middle, rounds, Traverses}
use simplex.Traversal.Gp.{gptraverse-Traverses, gptraverse-none}
use simplex.Traversal.Mpx.{mpxtraverse-Traverses, mpxtraverse-none}

-- A run that ends with enough fuel and not with less.
ends_iff_of :
    {depth : ℕ} {g' : Gpr} {b : BndFile} {c : Core} (fuel need : ℕ) (run : Option Core)
    → (need ≤ fuel → Traverses depth g' b c run)
    → (fuel < need → run ≡ none)
    → (run ≢ none) ↔ (need ≤ fuel)
ends_iff_of fuel need run enough short = elim (dec_lt fuel need) [
  | yes less ↦ (λ h. absurd (h (short less)), λ h. absurd (omega arith))
  | no more ↦ (λ h. omega arith, λ h e. let t = enough h in cc (t.ends, e))
]

module _ (c : Core) (ok : IsCore c) (on : mpx_on c.machine ≡ true) where
  -- On a machine of 64-bit registers with MPX on, both traversals end exactly with fuel for one round for
  -- each byte of half the size, or for 2 ^ 64 rounds where the size is 0 or 1.
  pub traversals_iff :
      (fuel : ℕ)
      → ((gptraverse fuel c ≢ none) ↔ (rounds c.gpr.rsi ≤ fuel))
        × ((mpxtraverse fuel c ≢ none) ↔ (rounds c.gpr.rsi ≤ fuel))
  traversals_iff fuel = (
    ends_iff_of fuel (rounds c.gpr.rsi) (gptraverse fuel c) (gptraverse-Traverses c ok fuel)
        (gptraverse-none c ok fuel),
    ends_iff_of fuel (rounds c.gpr.rsi) (mpxtraverse fuel c) (mpxtraverse-Traverses c ok on fuel)
        (mpxtraverse-none c ok on fuel),
  )

  -- On a machine of 64-bit registers with MPX on, and with fuel for the rounds, the two traversals of the
  -- same buffer end, have loaded from the same addresses in the same order, and agree on all memory outside
  -- the 80 bytes below the stack pointer.
  pub traversals_agree :
      (fuel : ℕ)
      → rounds c.gpr.rsi ≤ fuel
      → (gp : Core) × (mpx : Core) × (gptraverse fuel c ≡ some gp)
        × (mpxtraverse fuel c ≡ some mpx)
        × (gp.loads ≡ mpx.loads)
        × ((x : ℕ) → sub64 x c.machine.rsp < 2 ^ 64 - 80 → gp.machine.mem x ≡ mpx.machine.mem x)
  traversals_agree fuel enough =
      let g = gptraverse-Traverses c ok fuel enough in
      let m = mpxtraverse-Traverses c ok on fuel enough in
      (
        g.final,
        m.final,
        g.ends,
        m.ends,
        g.loads ∙ sym m.loads,
        λ x h. g.spares.mem x (omega arith) ∙ sym (m.spares.mem x h),
      )

abbrev pub All : (ℕ → Type 0) → List ℕ → Type 0
All P [] = Unit
All P (x ∷ xs) = P x × All P xs

-- An address in the `2 * half` bytes from `low`.
abbrev pub Within : ℕ → ℕ → ℕ → Type 0
Within low half x = (low ≤ x) × (x < low + 2 * half)

visits-Within :
    (low half i count : ℕ) (rest : List ℕ)
    → low + 2 * half ≤ 2 ^ 64
    → i + count ≤ half
    → All (Within low half) rest
    → All (Within low half) (visits low (add64 half low) i count rest)
unfolding visits
visits-Within low half i zero rest fits l h = h
visits-Within low half i (suc count) rest fits l h =
    visits-Within low half (add64 i 1) count _ fits (omega arith) (omega arith, (omega arith, h))

-- The last round.
visits_last :
    (low half i count : ℕ) (rest : List ℕ)
    → low + 2 * half ≤ 2 ^ 64
    → i + suc count ≡ half
    → (before : List ℕ) × (visits low (add64 half low) i (suc count) rest
        ≡ (low + 2 * half - 1) ∷ before)
unfolding visits
visits_last low half i zero rest fits e =
    (add64 low i ∷ rest, ap (λ (x : ℕ). x ∷ add64 low i ∷ rest) (omega arith))
visits_last low half i (suc count) rest fits e =
    visits_last low half (add64 i 1) count _ fits (omega arith)

-- The data loads of a run that ends: each begins in the buffer, and the latest begins at its last byte.
pub record Loads (low half : ℕ) (result : Option Core) : Type 0 where
  pub final : Core
  pub ends : result ≡ some final
  pub within : All (Within low half) final.loads
  pub before : List ℕ
  pub latest : final.loads ≡ (low + 2 * half - 1) ∷ before

Loads-Traverses :
    {depth : ℕ} {g' : Gpr} {b : BndFile} {c : Core} {result : Option Core}
    → 2 ≤ c.gpr.rsi
    → c.gpr.rdi + 2 * (c.gpr.rsi / 2) ≤ 2 ^ 64
    → c.loads ≡ []
    → Traverses depth g' b c result
    → Loads c.gpr.rdi (c.gpr.rsi / 2) result
Loads-Traverses {c} big fits empty t =
    let low = c.gpr.rdi in
    let half = c.gpr.rsi / 2 in
    let count = half - 1 in
    let same : rounds c.gpr.rsi ≡ suc count = ground arith in
    let run : t.final.loads ≡ visits low (add64 half low) 0 (suc count) [] =
      t.loads
      ∙ ap (λ (n : ℕ). visits low (middle c) 0 n c.loads) same
      ∙ ap (visits low (middle c) 0 (suc count)) empty in
    let last = visits_last low half 0 count [] fits (omega arith) in
    record {
      final = t.final;
      ends = t.ends;
      within = rw run (visits-Within low half 0 (suc count) [] fits (omega arith) tt);
      before = last.0;
      latest = run ∙ last.1;
    }

-- For a buffer of at least two bytes that ends within the address space, on a machine of 64-bit registers
-- with MPX on and no loads behind it, and with fuel for a round for each byte of a half: both traversals
-- end, every address that they load from lies in the buffer's two halves, and the latest of them is that of
-- the last byte of the second half.
pub traversals-Loads :
    (c : Core)
    → IsCore c
    → mpx_on c.machine ≡ true
    → 2 ≤ c.gpr.rsi
    → c.gpr.rdi + 2 * (c.gpr.rsi / 2) ≤ 2 ^ 64
    → c.loads ≡ []
    → (fuel : ℕ) → rounds c.gpr.rsi ≤ fuel
    → Loads c.gpr.rdi (c.gpr.rsi / 2) (gptraverse fuel c)
      × Loads c.gpr.rdi (c.gpr.rsi / 2) (mpxtraverse fuel c)
traversals-Loads c ok on big fits empty fuel enough = (
  Loads-Traverses big fits empty (gptraverse-Traverses c ok fuel enough),
  Loads-Traverses big fits empty (mpxtraverse-Traverses c ok on fuel enough),
)
