-- ===== src/TestSuite/Loops.antt =====
-- The bodies of the tests' loops, as sequences of calls whose results are promised.
use simplex.Base.{ℕ, ◌^◌, ◌<◌, ◌≡◌, ◌∙◌, arith, Bool, true, List, [], ◌∷◌, ◌++◌, IsWord}
use simplex.Machine.{BndName, bnd0, bnd1, bnd2, bnd3, Machine, M}
use simplex.Bounds.Bndreg.{Bndreg, encode}
use simplex.Bounds.Frame.{IsReady, Keeps, Keeps-IsReady}
use simplex.Bounds.Api.{
  get_lower, get_upper, get_both, quick_get, set_lower, set_upper, set_both, quick_set, exec,
  exec_all, view,
}
use simplex.Bounds.Refinement.{exec_all-RefinesAll}
use simplex.Runtime.Lifecycle.{IsHosted, Keeps-IsHosted}
use simplex.TestSuite.Promises.{
  lower_promise, upper_promise, lower_upper_promise, upper_lower_promise, wide_promise,
  quick_promise,
}
use simplex.TestSuite.{
  for_registers, reset_body, lower_body, upper_body, lower_upper_body, upper_lower_body, wide_body,
  quick_body,
}

-- A machine on which MPX works and which the runtime can finish with.
pub record IsLive (m : Machine) : Type 0 where
  pub ready : IsReady m
  pub hosted : IsHosted m

Keeps-IsLive : {m m' : Machine} → Keeps m m' → IsLive m → IsLive m'
Keeps-IsLive k h = record { ready = Keeps-IsReady k h.ready; hosted = Keeps-IsHosted k h.hosted }

abbrev pub AllTrue : List Bool → Type 0
AllTrue [] = Unit
AllTrue (b ∷ bs) = (b ≡ true) × AllTrue bs

pub AllTrue-append : (bs cs : List Bool) → AllTrue bs → AllTrue cs → AllTrue (bs ++ cs)
AllTrue-append [] cs h k = k
AllTrue-append (b ∷ bs) cs h k = (h.0, AllTrue-append bs cs h.1 k)

-- A test that passes, and leaves a machine on which MPX works.
pub record Passes (r : List Bool × Machine) : Type 0 where
  pub asserts : AllTrue r.0
  pub live : IsLive r.1

pub for_registers-Passes :
    (body : Bndreg → M (List Bool))
    → ((n : BndName) (m : Machine) → IsLive m → Passes (body (encode n) m))
    → (m : Machine) → IsLive m
    → Passes (for_registers body m)
unfolding for_registers
for_registers-Passes body each m r =
    let p0 = each bnd0 _ r in
    let p1 = each bnd1 _ p0.live in
    let p2 = each bnd2 _ p1.live in
    let p3 = each bnd3 _ p2.live in
    record {
      asserts =
          AllTrue-append _ _ p0.asserts
            (AllTrue-append _ _ p1.asserts (AllTrue-append _ _ p2.asserts p3.asserts));
      live = p3.live;
    }

-- Each body passes, at every value of its type.
pub reset_body-Passes : (n : BndName) (m : Machine) → IsLive m → Passes (reset_body (encode n) m)
unfolding reset_body exec_all exec
reset_body-Passes n m r =
    let calls = set_lower (encode n) 0 ∷ set_upper (encode n) 0 ∷ [] in
    let done = exec_all-RefinesAll calls r.ready (omega arith) in
    record { asserts = tt; live = Keeps-IsLive done.keeps r }

pub lower_body-Passes :
    (val : ℕ)
    → IsWord val
    → (n : BndName) (m : Machine) → IsLive m
    → Passes (lower_body val (encode n) m)
unfolding lower_body exec_all exec
lower_body-Passes val fits n m r =
    let calls = set_lower (encode n) val ∷ get_lower (encode n) ∷ [] in
    let done = exec_all-RefinesAll calls r.ready (omega arith) in
    record {
      asserts = ground (arith, done.results ∙ lower_promise (view m) n val);
      live = Keeps-IsLive done.keeps r;
    }

pub upper_body-Passes :
    (val : ℕ)
    → IsWord val
    → (n : BndName) (m : Machine) → IsLive m
    → Passes (upper_body val (encode n) m)
unfolding upper_body exec_all exec
upper_body-Passes val fits n m r =
    let calls = set_upper (encode n) val ∷ get_upper (encode n) ∷ [] in
    let done = exec_all-RefinesAll calls r.ready (omega arith) in
    record {
      asserts = ground (arith, done.results ∙ upper_promise (view m) n val);
      live = Keeps-IsLive done.keeps r;
    }

pub lower_upper_body-Passes :
    (l u : ℕ)
    → IsWord l
    → IsWord u
    → (n : BndName) (m : Machine) → IsLive m
    → Passes (lower_upper_body l u (encode n) m)
unfolding lower_upper_body exec_all exec
lower_upper_body-Passes l u hl hu n m r =
    let calls =
      set_lower (encode n) l
      ∷ set_upper (encode n) u
      ∷ get_lower (encode n)
      ∷ get_upper (encode n)
      ∷ [] in
    let done = exec_all-RefinesAll calls r.ready (omega arith) in
    record {
      asserts = ground (arith, done.results ∙ lower_upper_promise (view m) n l u);
      live = Keeps-IsLive done.keeps r;
    }

pub upper_lower_body-Passes :
    (l u : ℕ)
    → IsWord l
    → IsWord u
    → (n : BndName) (m : Machine) → IsLive m
    → Passes (upper_lower_body l u (encode n) m)
unfolding upper_lower_body exec_all exec
upper_lower_body-Passes l u hl hu n m r =
    let calls =
      set_upper (encode n) u
      ∷ set_lower (encode n) l
      ∷ get_lower (encode n)
      ∷ get_upper (encode n)
      ∷ [] in
    let done = exec_all-RefinesAll calls r.ready (omega arith) in
    record {
      asserts = ground (arith, done.results ∙ upper_lower_promise (view m) n l u);
      live = Keeps-IsLive done.keeps r;
    }

pub wide_body-Passes :
    (val : ℕ)
    → val < 2 ^ 128
    → (n : BndName) (m : Machine) → IsLive m
    → Passes (wide_body val (encode n) m)
unfolding wide_body exec_all exec
wide_body-Passes val fits n m r =
    let calls = set_both (encode n) val ∷ get_both (encode n) ∷ [] in
    let done = exec_all-RefinesAll calls r.ready (omega arith) in
    record {
      asserts = ground (arith, done.results ∙ wide_promise (view m) n val);
      live = Keeps-IsLive done.keeps r;
    }

pub quick_body-Passes :
    (val : ℕ)
    → IsWord val
    → (n : BndName) (m : Machine) → IsLive m
    → Passes (quick_body val (encode n) m)
unfolding quick_body exec_all exec
quick_body-Passes val fits n m r =
    let calls = quick_set (encode n) val ∷ quick_get (encode n) ∷ [] in
    let done = exec_all-RefinesAll calls r.ready (omega arith) in
    record {
      asserts = ground (arith, done.results ∙ quick_promise (view m) n val);
      live = Keeps-IsLive done.keeps r;
    }
