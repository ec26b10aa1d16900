-- ===== src/Benchmark/Rivals.antt =====
-- Each `simplex_` function against its `libgcc_` counterpart.
use native.Mathlib.Decide.{dec_lt}
use simplex.Base.{
  ℕ, zero, suc, ◌+◌, ◌≤◌, ◌<◌, ◌≡◌, ◌≢◌, ◌⊎◌, refl, ap, sym, ◌∙◌, arith, add64, sub64, IsWord,
}
use simplex.Machine.{Machine, bnd1, bnd2, slot}
use simplex.Machine.Bytes.{Memory}
use simplex.Bounds.Frame.{IsReady}
use simplex.SimplexString.Libgcc.{
  pos, libgcc_memcmp, libgcc_memcpy, libgcc_memset, libgcc_memchr, libgcc_memmove,
}
use simplex.SimplexString.Copies.{libgcc_memcpy_lem, libgcc_memmove_lem}
use simplex.SimplexString.Scans.{
  bytes_at, compare_bytes, FirstAt, absent, found, libgcc_memset_lem, libgcc_memcmp_lem,
  libgcc_memchr_lem,
}
use simplex.SimplexString.Hidden.{
  simplex_memcmp, simplex_memcpy, simplex_memmove, simplex_memset, simplex_memchr,
}
use simplex.SimplexString.Pointers.{IsClear, Fit, simplex_memcpy-IsCopied, simplex_memmove-IsCopied}
use simplex.SimplexString.Searches.{simplex_memcmp_lem, simplex_memchr_lem, simplex_memset-IsFilled}

-- A search has one result.
pub FirstAt_unique :
    {src c length r r' : ℕ} {mem : Memory}
    → FirstAt src c mem length r
    → FirstAt src c mem length r'
    → r ≡ r'
FirstAt_unique (absent length n) (absent _ n') = refl
FirstAt_unique {mem} (absent length n) (found _ i r l e here before) =
    absurd (n i l (ap mem (sym e) ∙ here))
FirstAt_unique {mem} (found length i r l e here before) (absent _ n) =
    absurd (n i l (ap mem (sym e) ∙ here))
FirstAt_unique {mem} (found length i r l e here before) (found _ i' r' l' e' here' before') =
    elim (dec_lt i i') [
      | yes less ↦ absurd (before' i less (ap mem (sym e) ∙ here))
      | no more ↦ elim (dec_lt i' i) [
        | yes less ↦ absurd (before i' less (ap mem (sym e') ∙ here'))
        | no other ↦ omega arith
      ]
    ]

-- Two functions that return the same, and leave the same memory outside the stack slot of `m`.
pub record Alike (m : Machine) (hidden : ℕ × Machine) (plain : ℕ × Memory) : Type 0 where
  pub returned : hidden.0 ≡ plain.0
  pub memory : (x : ℕ) → IsWord x → 16 ≤ sub64 x (slot 0x80 m) → hidden.1.mem x ≡ plain.1 x

module _ (n : ℕ) {m : Machine} (r : IsReady m) where
  abbrev first : ℕ
  first = (m.bnds bnd1).lb

  abbrev second : ℕ
  second = (m.bnds bnd2).lb

  pub memcmp_alike :
      IsClear bnd1 n m
      → IsClear bnd2 n m
      → (simplex_memcmp n m).0 ≡ libgcc_memcmp first second n m.mem
  memcmp_alike c1 c2 =
      (simplex_memcmp_lem n r c1 c2).0
      ∙ sym
          (libgcc_memcmp_lem first second n m.mem (r.machine.lb_fits bnd1) (r.machine.lb_fits bnd2))

  pub memchr_alike :
      (c : ℕ) → IsClear bnd1 n m → (simplex_memchr c n m).0 ≡ libgcc_memchr first c n m.mem
  memchr_alike c c1 =
      FirstAt_unique (simplex_memchr_lem c n r c1).0
        (libgcc_memchr_lem first c n m.mem (r.machine.lb_fits bnd1))

  pub memset_alike :
      (val : ℕ) → IsWord n → Alike m (simplex_memset val n m) (libgcc_memset first val n m.mem)
  memset_alike val hn =
      let h = simplex_memset-IsFilled val n r hn in
      let l = libgcc_memset_lem first val n m.mem hn (r.machine.lb_fits bnd1) in
      record {
        returned = h.returned ∙ sym l.0;
        memory = λ x hx apart. h.memory x hx apart ∙ sym (l.1 x hx);
      }

  pub memcpy_alike :
      IsWord n
      → Fit n m
      → IsClear bnd2 n m
      → (first ≤ second) ⊎ (second + n ≤ first)
      → Alike m (simplex_memcpy n m) (libgcc_memcpy first second n m.mem)
  memcpy_alike hn fit clear order =
      let h = simplex_memcpy-IsCopied n r hn fit clear order in
      let l =
        libgcc_memcpy_lem first second n m.mem hn (r.machine.lb_fits bnd1) (r.machine.lb_fits bnd2)
          fit.0 fit.1 order in
      record {
        returned = h.returned ∙ sym l.0;
        memory = λ x hx apart. h.memory x hx apart ∙ sym (l.1 x hx);
      }

  pub memmove_alike :
      IsWord n
      → Fit n m
      → IsClear bnd2 n m
      → Alike m (simplex_memmove n m) (libgcc_memmove first second n m.mem)
  memmove_alike hn fit clear =
      let h = simplex_memmove-IsCopied n r hn fit clear in
      let l =
        libgcc_memmove_lem first second n m.mem hn (r.machine.lb_fits bnd1) (r.machine.lb_fits bnd2)
          fit.0 fit.1 in
      record {
        returned = h.returned ∙ sym l.0;
        memory = λ x hx apart. h.memory x hx apart ∙ sym (l.1 x hx);
      }

-- Where regions are the same, and where they are not.
step : (mem : Memory) (a i : ℕ) → mem (add64 (add64 a 1) i) ≡ mem (add64 a (suc i))
step mem a i = ap mem (omega arith)

at_start : (mem : Memory) (a : ℕ) → IsWord a → mem (add64 a 0) ≡ mem a
at_start mem a h = ap mem (omega arith)

pub compare_same :
    (n a b : ℕ) (mem : Memory)
    → IsWord a
    → IsWord b
    → ((i : ℕ) → i < n → mem (add64 a i) ≡ mem (add64 b i))
    → compare_bytes (bytes_at n a mem) (bytes_at n b mem) ≡ pos 0
unfolding compare_bytes bytes_at
compare_same zero a b mem ha hb same = refl
compare_same (suc n) a b mem ha hb same =
    let rest =
      compare_same n (add64 a 1) (add64 b 1) mem (omega arith) (omega arith)
        (λ i l. step mem a i ∙ same (suc i) (omega arith) ∙ sym (step mem b i)) in
    ground (arith, rest, at_start mem a ha, at_start mem b hb, same 0 (omega arith))

pub compare_differs :
    (n k a b : ℕ) (mem : Memory)
    → IsWord a
    → IsWord b
    → k < n
    → mem (add64 a k) ≢ mem (add64 b k)
    → compare_bytes (bytes_at n a mem) (bytes_at n b mem) ≢ pos 0
unfolding compare_bytes bytes_at
compare_differs zero k a b mem ha hb l differs e = absurd (omega arith)
compare_differs (suc n) zero a b mem ha hb l differs e =
    ground (arith, at_start mem a ha, at_start mem b hb)
compare_differs (suc n) (suc k) a b mem ha hb l differs e =
    let rest =
      compare_differs n k (add64 a 1) (add64 b 1) mem (omega arith) (omega arith) (omega arith)
        (λ q. differs (sym (step mem a k) ∙ q ∙ step mem b k)) in
    ground (arith, rest)
