-- ===== src/SimplexString/Libgcc.antt =====
-- The `libgcc_` functions. Pointers wrap at 2 ^ 64, an `int` argument is its 32-bit pattern, and each
-- `while (len--)` recurs on the rounds left.
use simplex.Base.{ℕ, zero, suc, ◌%◌, ◌^◌, ◌==◌, ltb, if◌then◌else◌, add64, sub64}
use simplex.Machine.Bytes.{Memory}

-- The values that an `int` result takes here; `negsuc n` is -(n + 1).
pub data ℤ : Type 0 where
  pos : ℕ → ℤ
  negsuc : ℕ → ℤ

unfoldable pub write : Memory → ℕ → ℕ → Memory
write mem a v x = if x == a then v else mem x

-- `if (*s1++ != *s2++) return s1[-1] < s2[-1] ? -1 : 1;`
unfoldable pub memcmp_loop : ℕ → ℕ → ℕ → Memory → ℤ
memcmp_loop zero s1 s2 mem = pos 0
memcmp_loop (suc count) s1 s2 mem =
    let s1' = add64 s1 1 in
    let s2' = add64 s2 1 in
    let rest = memcmp_loop count s1' s2' mem in
    if mem s1 == mem s2
    then rest
    else if ltb (mem (sub64 s1' 1)) (mem (sub64 s2' 1))
    then negsuc 0
    else pos 1

unfoldable pub libgcc_memcmp : ℕ → ℕ → ℕ → Memory → ℤ
unfolding memcmp_loop
libgcc_memcmp str1 str2 count mem = memcmp_loop count str1 str2 mem

-- `while (len--) *d++ = *s++;`
unfoldable pub forward_loop : ℕ → ℕ → ℕ → Memory → Memory
unfolding write
forward_loop zero d s mem = mem
forward_loop (suc len) d s mem = forward_loop len (add64 d 1) (add64 s 1) (write mem d (mem s))

-- `while (len--) *lastd-- = *lasts--;`
unfoldable pub backward_loop : ℕ → ℕ → ℕ → Memory → Memory
unfolding write
backward_loop zero lastd lasts mem = mem
backward_loop (suc len) lastd lasts mem =
    backward_loop len (sub64 lastd 1) (sub64 lasts 1) (write mem lastd (mem lasts))

-- The functions that write memory return `dest` and the memory.
unfoldable pub libgcc_memcpy : ℕ → ℕ → ℕ → Memory → ℕ × Memory
unfolding forward_loop
libgcc_memcpy dest src len mem = (dest, forward_loop len dest src mem)

-- The two ways of `memmove`. Where `len` is 0, `len - 1` wraps and the pointers are not used.
unfoldable pub move : ℕ → ℕ → ℕ → Memory → Memory
move d s len mem =
    if ltb d s
    then forward_loop len d s mem
    else let lasts = add64 s (sub64 len 1) in
      let lastd = add64 d (sub64 len 1) in backward_loop len lastd lasts mem

unfoldable pub libgcc_memmove : ℕ → ℕ → ℕ → Memory → ℕ × Memory
unfolding move
libgcc_memmove dest src len mem = (dest, move dest src len mem)

-- `*ptr++ = val`, where `val` is cut to an unsigned char.
unfoldable pub fill_loop : ℕ → ℕ → ℕ → Memory → Memory
unfolding write
fill_loop zero ptr val mem = mem
fill_loop (suc len) ptr val mem = fill_loop len (add64 ptr 1) val (write mem ptr (val % 2 ^ 8))

unfoldable pub libgcc_memset : ℕ → ℕ → ℕ → Memory → ℕ × Memory
unfolding fill_loop
libgcc_memset dest val len mem = (dest, fill_loop len dest val mem)

-- The byte is compared with all of `c`; 0 is the null pointer.
unfoldable pub memchr_loop : ℕ → ℕ → ℕ → Memory → ℕ
memchr_loop zero src c mem = 0
memchr_loop (suc length) src c mem =
    let rest = memchr_loop length (add64 src 1) c mem in if mem src == c then src else rest

unfoldable pub libgcc_memchr : ℕ → ℕ → ℕ → Memory → ℕ
unfolding memchr_loop
libgcc_memchr src c length mem = memchr_loop length src c mem
