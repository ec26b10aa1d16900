-- ===== src/TestSuite/Promises.antt =====
-- What the promises of a body of the tests' loops come to on one register.
use simplex.Base.{ℕ, ◌≡◌, refl, ap, arith, [], ◌∷◌}
use simplex.Machine.{BndName, bnd0, bnd1, bnd2, bnd3}
use simplex.Bounds.Bndreg.{encode}
use simplex.Bounds.Api.{
  get_lower, get_upper, get_both, quick_get, set_lower, set_upper, set_both, quick_set, Bounds,
  promise, promise_all,
}

module _ (b : Bounds) where
  pub lower_promise :
      (n : BndName) (val : ℕ)
      → (promise_all (set_lower (encode n) val ∷ get_lower (encode n) ∷ []) b).0 ≡ 0 ∷ val ∷ []
  unfolding promise_all promise
  lower_promise bnd0 val = refl
  lower_promise bnd1 val = refl
  lower_promise bnd2 val = refl
  lower_promise bnd3 val = refl

  pub upper_promise :
      (n : BndName) (val : ℕ)
      → (promise_all (set_upper (encode n) val ∷ get_upper (encode n) ∷ []) b).0 ≡ 0 ∷ val ∷ []
  unfolding promise_all promise
  upper_promise bnd0 val = refl
  upper_promise bnd1 val = refl
  upper_promise bnd2 val = refl
  upper_promise bnd3 val = refl

  pub lower_upper_promise :
      (n : BndName) (l u : ℕ)
      → (promise_all
          (set_lower (encode n) l
            ∷ set_upper (encode n) u
            ∷ get_lower (encode n)
            ∷ get_upper (encode n)
            ∷ [])
          b).0
        ≡ 0 ∷ 0 ∷ l ∷ u ∷ []
  unfolding promise_all promise
  lower_upper_promise bnd0 l u = refl
  lower_upper_promise bnd1 l u = refl
  lower_upper_promise bnd2 l u = refl
  lower_upper_promise bnd3 l u = refl

  pub upper_lower_promise :
      (n : BndName) (l u : ℕ)
      → (promise_all
          (set_upper (encode n) u
            ∷ set_lower (encode n) l
            ∷ get_lower (encode n)
            ∷ get_upper (encode n)
            ∷ [])
          b).0
        ≡ 0 ∷ 0 ∷ l ∷ u ∷ []
  unfolding promise_all promise
  upper_lower_promise bnd0 l u = refl
  upper_lower_promise bnd1 l u = refl
  upper_lower_promise bnd2 l u = refl
  upper_lower_promise bnd3 l u = refl

  pub wide_promise :
      (n : BndName) (val : ℕ)
      → (promise_all (set_both (encode n) val ∷ get_both (encode n) ∷ []) b).0 ≡ 0 ∷ val ∷ []
  unfolding promise_all promise
  wide_promise bnd0 val = ap (λ v. 0 ∷ v ∷ []) (omega arith)
  wide_promise bnd1 val = ap (λ v. 0 ∷ v ∷ []) (omega arith)
  wide_promise bnd2 val = ap (λ v. 0 ∷ v ∷ []) (omega arith)
  wide_promise bnd3 val = ap (λ v. 0 ∷ v ∷ []) (omega arith)

  pub quick_promise :
      (n : BndName) (val : ℕ)
      → (promise_all (quick_set (encode n) val ∷ quick_get (encode n) ∷ []) b).0 ≡ 0 ∷ val ∷ []
  unfolding promise_all promise
  quick_promise bnd0 val = refl
  quick_promise bnd1 val = refl
  quick_promise bnd2 val = refl
  quick_promise bnd3 val = refl
