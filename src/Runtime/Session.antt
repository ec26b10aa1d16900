-- ===== src/Runtime/Session.antt =====
-- A whole use of the library: initialise, call, finish.
use simplex.Base.{ℕ, ◌-◌, ◌^◌, ◌≡◌, ap, ◌∙◌, not64, true, false, List}
use simplex.Cpuid.{Cpu}
use simplex.Machine.{BndFile, Machine, mpx_on}
use simplex.Bounds.Api.{Call, exec_all, Bounds, view, promise_all, AllTyped}
use simplex.Bounds.Refinement.{exec_all-RefinesAll}
use simplex.Runtime.Support.{check_mpx_support}
use simplex.Runtime.Xsave.{Outcome, ok, ◌>>=◌, init_bnds, bit}
use simplex.Runtime.Process.{process_specific_init, process_specific_finish}
use simplex.Runtime.Outcomes.{configured}
use simplex.Runtime.Lifecycle.{
  IsHosted, Keeps-IsHosted, configured-IsHosted, mpx_on-configured, init_ok, finish_ok,
}

-- A client that does not look at the results of the two runtime functions.
unfoldable pub session : Cpu → List Call → Machine → Outcome (List ℕ)
session cpu cs = do
  _ ← process_specific_init cpu
  vs ← λ m. ok (exec_all cs m).0 (exec_all cs m).1
  _ ← process_specific_finish cpu
  ok vs

-- The bounds that a session begins with: every address.
abbrev pub all_addresses : Bounds
all_addresses _ = record { lower = 0; upper = 2 ^ 64 - 1 }

abbrev pub bounds_of : BndFile → Bounds
bounds_of f n = record { lower = (f n).lb; upper = not64 (f n).ub }

bnds-configured :
    (cfg : ℕ) (m : Machine) → bit 3 m.xcr0 ≡ true → (configured cfg m).bnds ≡ init_bnds
bnds-configured cfg m has = rw has

pub view-configured :
    (cfg : ℕ) (m : Machine) → bit 3 m.xcr0 ≡ true → view (configured cfg m) ≡ all_addresses
view-configured cfg m has = ap bounds_of (bnds-configured cfg m has)

pub record Serves (cpu : Cpu) (cs : List Call) (m : Machine) : Type 0 where
  pub final : Machine
  pub results : session cpu cs m ≡ ok (promise_all cs all_addresses).0 final
  pub off : mpx_on final ≡ false
  pub bnds : final.bnds ≡ init_bnds

-- On a processor that passes the check and a machine of 64-bit registers and bytes whose operating
-- system has enabled XSAVE with the two MPX components, a session (initialise, make any well-typed
-- calls, finish) ends without a fault, returns what the calls promise from bounds that allow every
-- address, and leaves MPX off and the bounds registers initialised.
pub session-Serves :
    (cpu : Cpu) (cs : List Call) {m : Machine}
    → check_mpx_support cpu ≡ true
    → IsHosted m
    → AllTyped cs
    → Serves cpu cs m
unfolding session
session-Serves cpu cs {m} supported h t =
    let m1 = configured 3 m in
    let h1 = configured-IsHosted 3 h in
    let r =
      exec_all-RefinesAll cs {m = m1} (record { machine = h1.machine; on = mpx_on-configured 3 m })
        t in
    let h2 = Keeps-IsHosted r.keeps h1 in
    let final_machine = configured 0 (exec_all cs m1).1 in
    record {
      final = final_machine;
      results =
          rw (init_ok cpu supported h, finish_ok cpu supported h2)
            (ap (λ vs. ok vs final_machine)
              (r.results ∙ ap (λ b. (promise_all cs b).0) (view-configured 3 m h.has_bndregs)));
      off = mpx_on-configured 0 (exec_all cs m1).1;
      bnds = bnds-configured 0 (exec_all cs m1).1 h2.has_bndregs;
    }
