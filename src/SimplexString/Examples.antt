-- ===== src/SimplexString/Examples.antt =====
-- Copies and searches in the low addresses of a machine with MPX on.
use simplex.Base.{ℕ, ◌≡◌, refl, arith, IsWord}
use simplex.Machine.{bnd1, Machine, mpx_on, put}
use simplex.Machine.Samples.{active}
use simplex.Bounds.Frame.{IsReady, KeepsAll}
use simplex.SimplexString.Scans.{bytes_at, compare_bytes, FirstAt}
use simplex.SimplexString.Hidden.{simplex_memcmp, simplex_memmove, simplex_memset, simplex_memchr}
use simplex.SimplexString.Pointers.{IsCopied, simplex_memmove-IsCopied}
use simplex.SimplexString.Searches.{
  IsFilled, simplex_memcmp_lem, simplex_memchr_lem, simplex_memset-IsFilled,
}

-- BND1 points to `dest` and BND2 to 100.
abbrev pointing : ℕ → Machine
pointing dest = record active {
  bnds = put bnd1 (record { lb = dest; ub = 0 }) (λ _. record { lb = 100; ub = 0 });
}

pointing-IsReady : (dest : ℕ) → IsWord dest → IsReady (pointing dest)
unfolding mpx_on
pointing-IsReady dest h = record {
  machine = record {
    lb_fits = λ n. ground arith;
    ub_fits = λ n. ground arith;
    bytes = λ x. omega arith;
  };
  on = refl;
}

up : IsReady (pointing 104)
up = pointing-IsReady 104 (omega arith)

down : IsReady (pointing 96)
down = pointing-IsReady 96 (omega arith)

simplex_memmove-IsCopied_example : IsCopied 8 (pointing 104) (simplex_memmove 8 (pointing 104))
simplex_memmove-IsCopied_example =
    simplex_memmove-IsCopied 8 up (omega arith) (omega arith, omega arith) (λ i l. omega arith)

simplex_memcmp_lem_example :
    ((simplex_memcmp 8 (pointing 96)).0
      ≡ compare_bytes (bytes_at 8 96 (pointing 96).mem) (bytes_at 8 100 (pointing 96).mem))
    × KeepsAll (pointing 96) (simplex_memcmp 8 (pointing 96)).1
simplex_memcmp_lem_example = simplex_memcmp_lem 8 down (λ i l. omega arith) (λ i l. omega arith)

simplex_memchr_lem_example :
    FirstAt 96 99 (pointing 96).mem 8 (simplex_memchr 99 8 (pointing 96)).0
    × KeepsAll (pointing 96) (simplex_memchr 99 8 (pointing 96)).1
simplex_memchr_lem_example = simplex_memchr_lem 99 8 down (λ i l. omega arith)

simplex_memset-IsFilled_example : IsFilled 300 8 (pointing 96) (simplex_memset 300 8 (pointing 96))
simplex_memset-IsFilled_example = simplex_memset-IsFilled 300 8 down (omega arith)
