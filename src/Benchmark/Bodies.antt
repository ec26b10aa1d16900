-- ===== src/Benchmark/Bodies.antt =====
-- The benchmarks of `StringFixture` in simplex/eval/benchmark/benchmark.cpp: each `simplex_` function beside
-- its `libgcc_` counterpart at the same pointers. Memory has no bounds here: with a size above 4 MB a body goes on
-- behind the buffers, which C leaves undefined.
use simplex.Base.{ℕ, ◌/◌, add64}
use simplex.Machine.{M, ◌>>◌}
use simplex.Machine.Bytes.{Memory}
use simplex.Bounds.Mutators.{qsetbndl}
use simplex.SimplexString.Libgcc.{
  libgcc_memcmp, libgcc_memcpy, libgcc_memmove, libgcc_memset, libgcc_memchr,
}
use simplex.SimplexString.Hidden.{
  writes, simplex_memcmp, simplex_memcpy, simplex_memmove, simplex_memset, simplex_memchr,
}

-- Where the benchmarks of `memmove` copy from.
abbrev pub inner : ℕ → ℕ → ℕ
inner s1 sz = add64 (add64 s1 (sz / 4)) 1

unfoldable pub simplex_memmove_benchmark : ℕ → ℕ → M ℕ
simplex_memmove_benchmark s1 sz = do
  qsetbndl 1 s1
  qsetbndl 2 (inner s1 sz)
  simplex_memmove (sz / 2)

unfoldable pub libgcc_memmove_benchmark : ℕ → ℕ → Memory → ℕ × Memory
libgcc_memmove_benchmark s1 sz = libgcc_memmove s1 (inner s1 sz) (sz / 2)

-- The two versions, and the five functions with the size in bytes that a benchmark gets.
pub data Version : Type 0 where
  hidden plain : Version

pub data Benchmark : Type 0 where
  compares copies moves fills searches : Version → ℕ → Benchmark

-- A call whose result is not looked at.
abbrev pub discard : {A : Type 0} → M A → M (Unit {0})
discard f m = (tt, (f m).1)

unfoldable pub body : ℕ → ℕ → Benchmark → M (Unit {0})
unfolding simplex_memmove_benchmark libgcc_memmove_benchmark
body s1 s2 (compares hidden sz) = discard (simplex_memcmp sz)
body s1 s2 (compares plain sz) = discard (λ m. (libgcc_memcmp s1 s2 sz m.mem, m))
body s1 s2 (copies hidden sz) = discard (simplex_memcpy sz)
body s1 s2 (copies plain sz) = writes (λ mem. (libgcc_memcpy s1 s2 sz mem).1)
body s1 s2 (moves hidden sz) = discard (simplex_memmove_benchmark s1 sz)
body s1 s2 (moves plain sz) = writes (λ mem. (libgcc_memmove_benchmark s1 sz mem).1)
body s1 s2 (fills hidden sz) = discard (simplex_memset 0x43 sz)
body s1 s2 (fills plain sz) = writes (λ mem. (libgcc_memset s1 0x43 sz mem).1)
body s1 s2 (searches hidden sz) = discard (simplex_memchr 0 sz)
body s1 s2 (searches plain sz) = discard (λ m. (libgcc_memchr s1 0 sz m.mem, m))
