-- ===== src/Runtime/Branches.antt =====
-- Calls, returns and jumps carry no BND prefix in this program. With MPX on such a branch gives every bounds
-- register its initial state, unless BNDPRESERVE of BNDCFGU is set; simplex/lib/mpxrt.c sets it.
use simplex.Base.{
  ℕ, ◌≡◌, refl, ap, sym, subst, ◌∙◌, inl, inr, Bool, Bool-cases, true, false, not, ◌&&◌,
  if◌then◌else◌, List,
}
use simplex.Cpuid.{Cpu}
use simplex.Machine.{BndName, Machine, mpx_on, bndmov, bndmk, mov_load, andq, report}
use simplex.Bounds.Frame.{IsReady}
use simplex.Bounds.Api.{Call, view, promise_all, AllTyped}
use simplex.Bounds.Refinement.{exec_all-RefinesAll}
use simplex.Bounds.Interrupts.Code.{Code, code_all}
use simplex.Bounds.Interrupts.Safety.{
  Agrees, Agrees-refl, Executed, Interrupted, ends, spills, makes, reads, masks, prints, disturbed,
}
use simplex.Bounds.Interrupts.Transparent.{code_all-Same}
use simplex.Runtime.Support.{check_mpx_support}
use simplex.Runtime.Xsave.{Outcome, ok, fault, bit, init_bnds}
use simplex.Runtime.Process.{process_specific_init}
use simplex.Runtime.Outcomes.{configured}
use simplex.Runtime.Lifecycle.{IsHosted, configured-IsHosted, mpx_on-configured, init_ok}
use simplex.Runtime.Session.{all_addresses, bounds_of, view-configured}

unfoldable pub branch : Machine → Machine
unfolding mpx_on
branch m = if mpx_on m && not (bit 1 m.bndcfgu) then record m { bnds = init_bnds } else m

-- What comes between two instructions: a signal handler, or a branch of the program.
pub data Between : Machine → Machine → Type 0 where
  handles : {m m' : Machine} → Agrees m m' → Between m m'
  branches : (m : Machine) → Between m (branch m)

abbrev IsPreserving : Machine → Type 0
IsPreserving m = bit 1 m.bndcfgu ≡ true

branch_preserving : (m : Machine) → IsPreserving m → branch m ≡ m
unfolding branch
branch_preserving m h = elim (Bool-cases (mpx_on m)) [ inl on ↦ rw (on, h) | inr off ↦ rw off ]

branch_forgetting :
    (m : Machine) → mpx_on m ≡ true → bit 1 m.bndcfgu ≡ false → view (branch m) ≡ all_addresses
unfolding branch
branch_forgetting m on clear = rw (on, clear) refl

Between-Agrees : {m m' : Machine} → IsPreserving m → Between m m' → Agrees m m'
Between-Agrees h (handles g) = g
Between-Agrees h (branches m) = subst (Agrees m) (sym (branch_preserving m h)) (Agrees-refl m)

bndmov-bndcfgu : (n : BndName) (d : ℕ) (m : Machine) → (bndmov n d m).1.bndcfgu ≡ m.bndcfgu
unfolding bndmov
bndmov-bndcfgu n d m = elim (Bool-cases (mpx_on m)) [ inl on ↦ rw on refl | inr off ↦ rw off refl ]

bndmk-bndcfgu :
    (n : BndName) (base index : ℕ) (m : Machine) → (bndmk n base index m).1.bndcfgu ≡ m.bndcfgu
unfolding bndmk
bndmk-bndcfgu n base index m = elim (Bool-cases (mpx_on m)) [
  | inl on ↦ rw on refl
  | inr off ↦ rw off refl
]

-- With BNDPRESERVE set the branches leave only the handlers.
only_handlers :
    {A : Type 0} {p : Code A} {m m' : Machine} {a : A}
    → IsPreserving m
    → Executed Between p m a m'
    → Interrupted p m a m'
unfolding mov_load andq report
only_handlers h (ends a m) = ends a m
only_handlers {m} h (spills {n} {d} r) =
    spills (only_handlers (ap (bit 1) (bndmov-bndcfgu n d m) ∙ h) r)
only_handlers {m} h (makes {n} {base} {index} r) =
    makes (only_handlers (ap (bit 1) (bndmk-bndcfgu n base index m) ∙ h) r)
only_handlers h (reads r) = reads (only_handlers h r)
only_handlers h (masks r) = masks (only_handlers h r)
only_handlers h (prints r) = prints (only_handlers h r)
only_handlers h (disturbed b r) =
    let g = Between-Agrees h b in disturbed g (only_handlers (ap (bit 1) g.bndcfgu ∙ h) r)

abbrev machine_of : {A : Type 0} → Machine → Outcome A → Machine
machine_of m (ok a m') = m'
machine_of m (fault e) = m

configured_serves :
    {m : Machine}
    → IsHosted m
    → (cs : List Call) {vs : List ℕ} {m' : Machine} → AllTyped cs
    → Executed Between (code_all cs) (configured 3 m) vs m'
    → (vs ≡ (promise_all cs all_addresses).0) × (view m' ≡ (promise_all cs all_addresses).1)
configured_serves {m} h cs t r =
    let ready : IsReady (configured 3 m) = record {
      machine = (configured-IsHosted 3 h).machine;
      on = mpx_on-configured 3 m;
    } in
    let refines = exec_all-RefinesAll cs ready t in
    let (same, without) = code_all-Same cs (configured 3 m) (only_handlers refl r) in
    let start = view-configured 3 m h.has_bndregs in
    (
      same.value ∙ refines.results ∙ ap (λ b. (promise_all cs b).0) start,
      ap bounds_of same.agrees.bnds ∙ refines.bounds ∙ ap (λ b. (promise_all cs b).1) start,
    )

-- On a processor that passes the check and a machine of 64-bit registers and bytes whose operating system has
-- enabled XSAVE with the two MPX components, from the machine that `process_specific_init` ends in: however
-- the branches of the program, and signal handlers that leave the registers and the red zone, come between
-- the instructions of a sequence of well-typed calls, the calls return what they promise in turn from bounds
-- that allow every address, and leave the bounds that they promise.
pub code_all-promise_all :
    (cpu : Cpu) {m started : Machine} {b : Bool}
    → check_mpx_support cpu ≡ true
    → IsHosted m
    → process_specific_init cpu m ≡ ok b started
    → (cs : List Call) {vs : List ℕ} {m' : Machine} → AllTyped cs
    → Executed Between (code_all cs) started vs m'
    → (vs ≡ (promise_all cs all_addresses).0) × (view m' ≡ (promise_all cs all_addresses).1)
code_all-promise_all cpu {m} {started} supported h e cs {vs} {m'} t r =
    let same : configured 3 m ≡ started = ap (machine_of m) (sym (init_ok cpu supported h) ∙ e) in
    configured_serves h cs t (subst (λ m0. Executed Between (code_all cs) m0 vs m') (sym same) r)
