-- ===== src/Bounds/Refinement.antt =====
-- Each sequence of calls does to the machine what it promises.
use simplex.Base.{◌≡◌, refl, ap, ap₂, ◌∙◌, List, [], ◌∷◌}
use simplex.Machine.{Machine}
use simplex.Bounds.Frame.{IsReady, Keeps, Keeps-IsReady, Keeps-refl, Keeps-trans}
use simplex.Bounds.Api.{Call, exec_all, view, promise_all, AllTyped}
use simplex.Bounds.Calls.{exec-Refines}

pub record RefinesAll (cs : List Call) (m : Machine) : Type 0 where
  pub results : (exec_all cs m).0 ≡ (promise_all cs (view m)).0
  pub bounds : view (exec_all cs m).1 ≡ (promise_all cs (view m)).1
  pub keeps : Keeps m (exec_all cs m).1

-- On a machine of 64-bit registers and bytes with MPX on, every sequence of calls, with any
-- register numbers and with arguments of their C types, returns what the calls promise in turn,
-- leaves the bounds that they promise, and keeps all other state but stderr outside the stack
-- slots.
pub exec_all-RefinesAll : (cs : List Call) {m : Machine} → IsReady m → AllTyped cs → RefinesAll cs m
unfolding exec_all promise_all
exec_all-RefinesAll [] {m} r t = record { results = refl; bounds = refl; keeps = Keeps-refl m }
exec_all-RefinesAll (c ∷ cs) {m} r t =
    let head = exec-Refines c r t.0 in
    let rest = exec_all-RefinesAll cs (Keeps-IsReady head.keeps r) t.1 in
    record {
      results = ap₂ ◌∷◌ head.result (rest.results ∙ ap (λ b. (promise_all cs b).0) head.bounds);
      bounds = rest.bounds ∙ ap (λ b. (promise_all cs b).1) head.bounds;
      keeps = Keeps-trans head.keeps rest.keeps;
    }
