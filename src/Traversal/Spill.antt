-- ===== src/Traversal/Spill.antt =====
-- The fetch of `mpxtraverse`: both bounds registers go through the 32 bytes below the stack pointer, come
-- back as the two bases, and leave no trace in memory above.
use simplex.Base.{ℕ, ◌-◌, ◌≤◌, ◌≡◌, refl, ap, ◌∙◌, arith, true, add64, IsWord}
use simplex.Machine.{Machine, bnd0, bnd1, BndName, mpx_on, slot, bndmov, andq, mov_load}
use simplex.Machine.Bytes.{store64, load64}
use simplex.Machine.Stores.{load64-store64_self, load64-store64_apart, store64-off}
use simplex.Traversal.{Core, fetch_bounds, mpx_fetch, unhide}
use simplex.Traversal.Rounds.{Fetches}
use simplex.Traversal.Frame.{Spares, Spares-trans}

-- A store below the stack pointer.
stored : ℕ → ℕ → Machine → Machine
stored d v m = record m { mem = store64 m.mem (slot d m) v }

stored-Spares : (d v : ℕ) (m : Machine) → IsWord m.rsp → 8 ≤ d → d ≤ 32 → Spares 32 m (stored d v m)
unfolding stored
stored-Spares d v m hr lo hi = record {
  rsp = refl;
  mem = λ x h. store64-off m.mem (slot d m) v x (omega arith);
  rest = refl;
}

-- Both stores of a spill, with MPX on.
spilled_to : BndName → ℕ → Machine → Machine
spilled_to n d m = stored (d - 8) (m.bnds n).ub (stored d (m.bnds n).lb m)

bndmov-spilled_to :
    (n : BndName) (d : ℕ) (m : Machine)
    → mpx_on m ≡ true
    → 16 ≤ d
    → d ≤ 32
    → (bndmov n d m).1 ≡ spilled_to n d m
unfolding bndmov spilled_to stored
bndmov-spilled_to n d m on lo hi = rw on (λ i. record m {
  mem = store64 (store64 m.mem (slot d m) (m.bnds n).lb) (next_word i) (m.bnds n).ub;
})
  where
    next_word : add64 (slot d m) 8 ≡ slot (d - 8) m
    next_word = omega arith

spilled_to-Spares :
    (n : BndName) (d : ℕ) (m : Machine)
    → IsWord m.rsp
    → 16 ≤ d
    → d ≤ 32
    → Spares 32 m (spilled_to n d m)
unfolding spilled_to
spilled_to-Spares n d m hr lo hi =
    Spares-trans (stored-Spares d (m.bnds n).lb m hr (omega arith) hi) (
      stored-Spares (d - 8) (m.bnds n).ub (stored d (m.bnds n).lb m) (unfold stored in hr)
        (omega arith) (omega arith))

andq-Spares :
    (imm d : ℕ) (m : Machine) → IsWord m.rsp → 8 ≤ d → d ≤ 32 → Spares 32 m (andq imm d m).1
unfolding andq stored
andq-Spares imm d m hr lo hi = stored-Spares d _ m hr lo hi

module _ (m : Machine) (on : mpx_on m ≡ true) (fits0 : IsWord (m.bnds bnd0).lb)
    (fits1 : IsWord (m.bnds bnd1).lb) where
  abbrev both : Machine
  both = spilled_to bnd1 0x20 (spilled_to bnd0 0x10 m)

  load_first : load64 both.mem (slot 0x10 both) ≡ (m.bnds bnd0).lb
  unfolding spilled_to stored
  load_first =
      load64-store64_apart _ (slot 0x18 m) (slot 0x10 m) (m.bnds bnd1).ub (omega arith)
        (omega arith) (omega arith)
      ∙ load64-store64_apart _ (slot 0x20 m) (slot 0x10 m) (m.bnds bnd1).lb (omega arith)
          (omega arith) (omega arith)
      ∙ load64-store64_apart _ (slot 0x08 m) (slot 0x10 m) (m.bnds bnd0).ub (omega arith)
          (omega arith) (omega arith)
      ∙ load64-store64_self m.mem (slot 0x10 m) (m.bnds bnd0).lb (omega arith) fits0

  load_second : load64 both.mem (slot 0x20 both) ≡ (m.bnds bnd1).lb
  unfolding spilled_to stored
  load_second =
      load64-store64_apart _ (slot 0x18 m) (slot 0x20 m) (m.bnds bnd1).ub (omega arith)
        (omega arith) (omega arith)
      ∙ load64-store64_self _ (slot 0x20 m) (m.bnds bnd1).lb (omega arith) fits1

-- The four words behind the two spills, cleared.
wiped : Machine → Machine
wiped m = (andq 0 0x20 (andq 0 0x18 (andq 0 0x10 (andq 0 0x08 m).1).1).1).1

wiped-Spares : (m : Machine) → IsWord m.rsp → Spares 32 m (wiped m)
unfolding wiped andq
wiped-Spares m hr = Spares-trans (andq-Spares 0 0x08 m hr (omega arith) (omega arith)) (
    Spares-trans (andq-Spares 0 0x10 _ hr (omega arith) (omega arith)) (
      Spares-trans (andq-Spares 0 0x18 _ hr (omega arith) (omega arith))
        (andq-Spares 0 0x20 _ hr (omega arith) (omega arith))))

-- Both bounds registers hold the bases, and MPX is on.
pub record HoldsBases (low high : ℕ) (c : Core) : Type 0 where
  pub rsp : IsWord c.machine.rsp
  pub on : mpx_on c.machine ≡ true
  pub first : (c.machine.bnds bnd0).lb ≡ low
  pub second : (c.machine.bnds bnd1).lb ≡ high

module _ {low high : ℕ} (fits_low : IsWord low) (fits_high : IsWord high) (c : Core)
    (h : HoldsBases low high c) where
  abbrev spilled_both : Machine
  spilled_both = spilled_to bnd1 0x20 (spilled_to bnd0 0x10 c.machine)

  still_on : mpx_on (spilled_to bnd0 0x10 c.machine) ≡ true
  unfolding spilled_to stored mpx_on
  still_on = h.on

  spills : (bndmov bnd1 0x20 (bndmov bnd0 0x10 c.machine).1).1 ≡ spilled_both
  spills =
      ap (λ k. (bndmov bnd1 0x20 k).1)
        (bndmov-spilled_to bnd0 0x10 c.machine h.on (omega arith) (omega arith))
      ∙ bndmov-spilled_to bnd1 0x20 (spilled_to bnd0 0x10 c.machine) still_on (omega arith)
          (omega arith)

  word0 : IsWord (c.machine.bnds bnd0).lb
  word0 = rw h.first fits_low

  word1 : IsWord (c.machine.bnds bnd1).lb
  word1 = rw h.second fits_high

  fetch_bounds_lem : fetch_bounds c.machine ≡ ((low, high), wiped spilled_both)
  unfolding fetch_bounds mov_load wiped
  fetch_bounds_lem =
      ap (λ k. ((load64 k.mem (slot 0x10 k), load64 k.mem (slot 0x20 k)), wiped k)) spills ∙ (λ i. (
        (
          (load_first c.machine h.on word0 word1 ∙ h.first) i,
          (load_second c.machine h.on word0 word1 ∙ h.second) i,
        ),
        wiped spilled_both,
      ))

  fetched-Spares : Spares 32 c.machine (wiped spilled_both)
  unfolding spilled_to stored
  fetched-Spares =
      Spares-trans (spilled_to-Spares bnd0 0x10 c.machine h.rsp (omega arith) (omega arith)) (
        Spares-trans (spilled_to-Spares bnd1 0x20 _ h.rsp (omega arith) (omega arith))
          (wiped-Spares _ h.rsp))

  fetched-bnds : (wiped spilled_both).bnds ≡ c.machine.bnds
  unfolding spilled_to stored wiped andq
  fetched-bnds = refl

  fetched-on : mpx_on (wiped spilled_both) ≡ true
  unfolding spilled_to stored wiped andq mpx_on
  fetched-on = h.on

pub mpx-Fetches :
    (low high : ℕ) → IsWord low → IsWord high → Fetches mpx_fetch low high 32 (HoldsBases low high)
unfolding mpx_fetch unhide
mpx-Fetches low high fl fh = record {
  gpr = λ c h. ap (λ r. record (c.gpr) { rax = r.0.0; rcx = r.0.1 }) (fetch_bounds_lem fl fh c h);
  loads = λ c h. refl;
  spares = λ c h. rw (fetch_bounds_lem fl fh c h) (fetched-Spares fl fh c h);
  bnds = λ c h. rw (fetch_bounds_lem fl fh c h) (fetched-bnds fl fh c h);
  next = λ c h. record {
    rsp = rw (fetch_bounds_lem fl fh c h) (rw (fetched-Spares fl fh c h).rsp h.rsp);
    on = rw (fetch_bounds_lem fl fh c h) (fetched-on fl fh c h);
    first = rw (fetch_bounds_lem fl fh c h) (rw (fetched-bnds fl fh c h) h.first);
    second = rw (fetch_bounds_lem fl fh c h) (rw (fetched-bnds fl fh c h) h.second);
  };
}
