-- ===== src/Bounds/Accessors.antt =====
-- The accessors of simplex/lib/simplex.c. Each case of a `switch` is one `__asm__` block over its own
-- register; the blocks differ in nothing else, so they are instances of three.
use simplex.Base.{ℕ, ◌-◌, ◌*◌, ◌%◌, ◌^◌, bit_or, not64}
use simplex.Machine.{
  BndName, bnd0, bnd1, bnd2, bnd3, M, pure, ◌>>=◌, ◌>>◌, bndmov, mov_load, andq, report,
}
use simplex.Bounds.Bndreg.{Bndreg, switch}

-- "bndmov %n, -0x80(%rsp); mov -0x80(%rsp), val"
unfoldable pub spill_lower : BndName → M ℕ
spill_lower n = do bndmov n 0x80; mov_load 0x80

-- "bndmov %n, -0x80(%rsp); mov -0x78(%rsp), val"
unfoldable pub spill_upper : BndName → M ℕ
spill_upper n = do bndmov n 0x80; mov_load 0x78

-- "bndmov %n, -0x80(%rsp); mov -0x78(%rsp), upper; mov -0x80(%rsp), lower"
unfoldable pub spill_both : BndName → M (ℕ × ℕ)
spill_both n = do bndmov n 0x80; upper ← mov_load 0x78; lower ← mov_load 0x80; pure (upper, lower)

-- "andq $0, -0x78(%rsp); andq $0, -0x80(%rsp)"
unfoldable pub sanitize : M (Unit {0})
sanitize = do andq 0 0x78; andq 0 0x80

-- What follows the `switch` of `getbndl`.
abbrev pub return_val : ℕ → M ℕ
return_val val = do sanitize; pure val

unfoldable pub getbndl : Bndreg → M ℕ
getbndl reg =
    switch reg (spill_lower bnd0 >>= return_val) (spill_lower bnd1 >>= return_val)
      (spill_lower bnd2 >>= return_val) (spill_lower bnd3 >>= return_val)
      (do report "getbndl" reg; pure 0)

-- What follows the `switch` of `getbndu`.
abbrev pub return_inverted : ℕ → M ℕ
return_inverted val = do sanitize; pure (not64 val)

unfoldable pub getbndu : Bndreg → M ℕ
getbndu reg =
    switch reg (spill_upper bnd0 >>= return_inverted) (spill_upper bnd1 >>= return_inverted)
      (spill_upper bnd2 >>= return_inverted) (spill_upper bnd3 >>= return_inverted)
      (do report "getbndu" reg; pure 0)

-- `((uint128_t)lower) | ((~(uint128_t)upper) << 64)`, in 128 bits.
abbrev pub join128 : ℕ → ℕ → ℕ
join128 upper lower = bit_or lower ((2 ^ 128 - 1 - upper) * 2 ^ 64 % 2 ^ 128)

-- What follows the `switch` of `getbnd`.
abbrev pub return_joined : ℕ × ℕ → M ℕ
return_joined r = do sanitize; pure (join128 r.0 r.1)

unfoldable pub getbnd : Bndreg → M ℕ
getbnd reg =
    switch reg (spill_both bnd0 >>= return_joined) (spill_both bnd1 >>= return_joined)
      (spill_both bnd2 >>= return_joined) (spill_both bnd3 >>= return_joined)
      (do report "getbndu" reg; pure 0)

unfoldable pub qgetbndl : Bndreg → M ℕ
qgetbndl reg =
    switch reg (spill_lower bnd0) (spill_lower bnd1) (spill_lower bnd2) (spill_lower bnd3)
      (do report "getbndl" reg; pure 0)
