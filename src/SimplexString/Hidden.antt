-- ===== src/SimplexString/Hidden.antt =====
-- The `simplex_` functions, with their pointers in BND1 and BND2. All calls of `qgetbndl` from one
-- function find the stack pointer at one place.
use simplex.Base.{ℕ}
use simplex.Machine.{M, ◌>>=◌, ◌>>◌}
use simplex.Machine.Bytes.{Memory}
use simplex.Bounds.Accessors.{qgetbndl}
use simplex.SimplexString.Libgcc.{ℤ, memcmp_loop, forward_loop, move, fill_loop, memchr_loop}

abbrev pub reads : {A : Type 0} → (Memory → A) → M A
reads f m = (f m.mem, m)

abbrev pub writes : (Memory → Memory) → M (Unit {0})
writes f m = (tt, record m { mem = f m.mem })

unfoldable pub simplex_memcmp : ℕ → M ℤ
unfolding memcmp_loop
simplex_memcmp count = do s1 ← qgetbndl 1; s2 ← qgetbndl 2; reads (memcmp_loop count s1 s2)

unfoldable pub simplex_memcpy : ℕ → M ℕ
unfolding forward_loop
simplex_memcpy len = do d ← qgetbndl 1; s ← qgetbndl 2; writes (forward_loop len d s); qgetbndl 1

unfoldable pub simplex_memmove : ℕ → M ℕ
unfolding move
simplex_memmove len = do d ← qgetbndl 1; s ← qgetbndl 2; writes (move d s len); qgetbndl 1

unfoldable pub simplex_memset : ℕ → ℕ → M ℕ
unfolding fill_loop
simplex_memset val len = do ptr ← qgetbndl 1; writes (fill_loop len ptr val); qgetbndl 1

unfoldable pub simplex_memchr : ℕ → ℕ → M ℕ
unfolding memchr_loop
simplex_memchr c len = do src ← qgetbndl 1; reads (memchr_loop len src c)
