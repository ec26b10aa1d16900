-- ===== src/Benchmark/LoadStore/Trips.antt =====
-- A store followed by the load from the same place.
use simplex.Base.{
  ℕ, ◌≡◌, refl, ap, sym, ◌∙◌, arith, inl, inr, Bool, false, not, Bool-cases, if◌then◌else◌, Option,
  none, some, add64, IsWord,
}
use simplex.Machine.{bnd0, Machine, slot, bndmk}
use simplex.Machine.Bytes.{Memory, store64, load64}
use simplex.Machine.Stores.{load64-store64_self, load64-store64_apart}
use simplex.Bounds.Accessors.{spill_lower}
use simplex.Bounds.Blocks.{spill_lower_lem}
use simplex.Bounds.Frame.{IsReady, Keeps-with_bound, Keeps-IsReady}
use simplex.Bounds.Writes.{with_bound, qsetbndl_case, qsetbndl_lem, half_of_on}
use simplex.Benchmark.LoadStore.{
  Processor, Ended, returns, faults, and_then, Place, gp, seg, mmx, xmm, bnd, aligned, store, load,
}

-- Where a run ends without a fault, the word in `val`.
abbrev pub val_of : Ended → Option ℕ
val_of (returns p) = some p.val
val_of (faults e) = none

-- `w` is in `val` before the load.
unfoldable pub trip : Place → ℕ → Processor → Ended
unfolding store load
trip place w p = and_then (store place p) (λ p'. load place (record p' { val = w }))

abbrev pub is_refused : Place → Processor → Bool
is_refused xmm p = not (aligned p)
is_refused _ p = false

-- The word that comes back: from GS it is the selector.
abbrev pub seen : Place → Processor → ℕ
seen seg p = p.gs
seen _ p = p.val

back_from_slot :
    (mem : Memory) (a v : ℕ)
    → IsWord a
    → IsWord v
    → let mem' = store64 mem a v in
      load64 (store64 (store64 mem' a (load64 mem' a)) (add64 a 8) (load64 mem' (add64 a 8))) a ≡ v
back_from_slot mem a v ha hv =
    let mem' = store64 mem a v in
    let same = load64-store64_self mem a v ha hv in
    load64-store64_apart (store64 mem' a (load64 mem' a)) (add64 a 8) a (load64 mem' (add64 a 8))
      (omega arith) (omega arith) (omega arith)
    ∙ ap (λ (w : ℕ). load64 (store64 mem' a w) a) same
    ∙ load64-store64_self mem' a v ha hv

xmm-trip :
    (w : ℕ) (p : Processor)
    → IsWord p.val
    → val_of (trip xmm w p) ≡ (if not (aligned p) then none else some p.val)
unfolding trip
xmm-trip w p h = elim (Bool-cases (aligned p)) [
  | inl fits ↦
      rw (fits, fits)
        (ap some (back_from_slot p.machine.mem (slot 0x80 p.machine) p.val (omega arith) h))
  | inr apart ↦ rw apart
]

bnd_back :
    (v : ℕ) {m : Machine} → IsWord v → IsReady m → (spill_lower bnd0 (bndmk bnd0 v 0 m).1).0 ≡ v
bnd_back v {m} h r =
    let made = sym (qsetbndl_case bnd0 v m) ∙ qsetbndl_lem bnd0 m r.on v h in
    let ready = Keeps-IsReady (Keeps-with_bound bnd0 v v m h) r in
    ap (λ (t : Unit {0} × Machine). (spill_lower bnd0 t.1).0) made
    ∙ ap (λ (t : ℕ × Machine). t.0) (spill_lower_lem bnd0 ready.machine)
    ∙ (half_of_on bnd0 (with_bound bnd0 v v m) ready.on).0
    ∙ lower_made
  where
    lower_made : ((with_bound bnd0 v v m).bnds bnd0).lb ≡ v
    lower_made = unfold with_bound in refl

-- On a machine of 64-bit registers and bytes with MPX on, a benchmark that stores a 64-bit `val` and the one
-- that loads from the same place bring it back, whatever is in `val` between them, except that %gs gives its
-- selector, and that the two over %xmm1 fault exactly where the stack slot is not aligned to 16 bytes.
pub load-store :
    (place : Place) (w : ℕ) (p : Processor)
    → IsWord p.val
    → IsReady p.machine
    → val_of (trip place w p) ≡ (if is_refused place p then none else some (seen place p))
load-store gp w p h r = unfold trip in refl
load-store seg w p h r = unfold trip in refl
load-store mmx w p h r = unfold trip in refl
load-store xmm w p h r = xmm-trip w p h
load-store bnd w p h r = unfold trip in ap some (bnd_back p.val h r)
