-- ===== src/SimplexString/Copies.antt =====
-- Copies: what the two loops of `memmove` leave in memory, wherever the two regions lie.
use simplex.Base.{
  ℕ, zero, suc, ◌+◌, ◌≤◌, ◌<◌, ◌≡◌, ◌⊎◌, inl, inr, ◌≢◌, Bool-cases, refl, ap, ◌∙◌, ◌^◌, arith, ltb,
  if◌then◌else◌, add64, sub64, IsWord,
}
use simplex.Machine.Bytes.{Memory}
use simplex.SimplexString.Libgcc.{
  write, forward_loop, backward_loop, move, libgcc_memmove, libgcc_memcpy,
}

-- Memory after `len` bytes have been copied from `s` to `d` at once.
unfoldable pub copied : Memory → ℕ → ℕ → ℕ → Memory
copied mem d s len x = if ltb (sub64 x d) len then mem (add64 s (sub64 x d)) else mem x

write_self : (mem : Memory) (a v : ℕ) → write mem a v a ≡ v
unfolding write
write_self mem a v = ground arith

write-apart : (mem : Memory) (a v x : ℕ) → (x < a) ⊎ (a < x) → write mem a v x ≡ mem x
unfolding write
write-apart mem a v x h = ground arith

pub copied-inside :
    (mem : Memory) (d s len x : ℕ)
    → sub64 x d < len
    → copied mem d s len x ≡ mem (add64 s (sub64 x d))
unfolding copied
copied-inside mem d s len x h = ground arith

pub copied-outside : (mem : Memory) (d s len x : ℕ) → len ≤ sub64 x d → copied mem d s len x ≡ mem x
unfolding copied
copied-outside mem d s len x h = ground arith

-- Where an address is in a region whose first byte is at `d`.
place :
    (d len x : ℕ)
    → IsWord d
    → IsWord (suc len)
    → IsWord x
    → (x ≡ d)
      ⊎ ((sub64 x d ≡ suc (sub64 x (add64 d 1))) × (sub64 x (add64 d 1) < len))
      ⊎ ((suc len ≤ sub64 x d) × (len ≤ sub64 x (add64 d 1)))
place d len x hd hl hx = ground arith

forward-step :
    (len d s : ℕ) (mem : Memory)
    → IsWord (suc len)
    → IsWord d
    → IsWord s
    → (d ≡ s) ⊎ (suc len ≤ sub64 d s)
    → (x : ℕ) → IsWord x
    → copied (write mem d (mem s)) (add64 d 1) (add64 s 1) len x ≡ copied mem d s (suc len) x
forward-step len d s mem hl hd hs h x hx = elim (place d len x hd hl hx) [
  | inl e ↦
      rw
        (
          copied-outside (write mem d (mem s)) (add64 d 1) (add64 s 1) len x (omega arith),
          copied-inside mem d s (suc len) x (omega arith),
        )
        (ap (write mem d (mem s)) e ∙ write_self mem d (mem s) ∙ ap mem (omega arith))
  | inr (inl (e, l)) ↦
      rw
        (
          copied-inside (write mem d (mem s)) (add64 d 1) (add64 s 1) len x l,
          copied-inside mem d s (suc len) x (omega arith),
        )
        (write-apart mem d (mem s) (add64 (add64 s 1) (sub64 x (add64 d 1))) (ground arith)
          ∙ ap mem (omega arith))
  | inr (inr (e, l)) ↦
      rw
        (
          copied-outside (write mem d (mem s)) (add64 d 1) (add64 s 1) len x l,
          copied-outside mem d s (suc len) x e,
        )
        (write-apart mem d (mem s) x (omega arith))
]

forward_loop_lem :
    (len d s : ℕ) (mem : Memory)
    → IsWord len
    → IsWord d
    → IsWord s
    → (d ≡ s) ⊎ (len ≤ sub64 d s)
    → (x : ℕ) → IsWord x
    → forward_loop len d s mem x ≡ copied mem d s len x
unfolding forward_loop copied
forward_loop_lem zero d s mem hl hd hs h x hx = ground arith
forward_loop_lem (suc len) d s mem hl hd hs h x hx =
    forward_loop_lem len (add64 d 1) (add64 s 1) (write mem d (mem s)) (omega arith) (omega arith)
      (omega arith) (ground arith) x hx
    ∙ forward-step len d s mem hl hd hs h x hx

place_last :
    (d len x : ℕ)
    → IsWord d
    → IsWord (suc len)
    → IsWord x
    → (x ≡ add64 d len) ⊎ (sub64 x d < len) ⊎ ((suc len ≤ sub64 x d) × (x ≢ add64 d len))
place_last d len x hd hl hx = ground arith

backward-step :
    (len d s : ℕ) (mem : Memory)
    → IsWord (suc len)
    → IsWord d
    → IsWord s
    → (d ≡ s) ⊎ (suc len ≤ sub64 s d)
    → (x : ℕ) → IsWord x
    → copied (write mem (add64 d len) (mem (add64 s len))) d s len x ≡ copied mem d s (suc len) x
backward-step len d s mem hl hd hs h x hx = elim (place_last d len x hd hl hx) [
  | inl e ↦
      rw
        (
          copied-outside (write mem (add64 d len) (mem (add64 s len))) d s len x (omega arith),
          copied-inside mem d s (suc len) x (omega arith),
        )
        (ap (write mem (add64 d len) (mem (add64 s len))) e
          ∙ write_self mem (add64 d len) (mem (add64 s len))
          ∙ ap mem (omega arith))
  | inr (inl l) ↦
      rw
        (
          copied-inside (write mem (add64 d len) (mem (add64 s len))) d s len x l,
          copied-inside mem d s (suc len) x (omega arith),
        )
        (write-apart mem (add64 d len) (mem (add64 s len)) (add64 s (sub64 x d)) (ground arith))
  | inr (inr (l, e)) ↦
      rw
        (
          copied-outside (write mem (add64 d len) (mem (add64 s len))) d s len x (omega arith),
          copied-outside mem d s (suc len) x l,
        )
        (write-apart mem (add64 d len) (mem (add64 s len)) x (ground arith))
]

-- The backward loop, started at the last bytes.
backward_loop_lem :
    (len d s : ℕ) (mem : Memory)
    → IsWord len
    → IsWord d
    → IsWord s
    → (d ≡ s) ⊎ (len ≤ sub64 s d)
    → (x : ℕ) → IsWord x
    → backward_loop len (add64 d (sub64 len 1)) (add64 s (sub64 len 1)) mem x ≡ copied mem d s len x
unfolding backward_loop copied
backward_loop_lem zero d s mem hl hd hs h x hx = ground arith
backward_loop_lem (suc len) d s mem hl hd hs h x hx =
    rw (rewind d len hd hl, rewind s len hs hl, back_one d len hd hl, back_one s len hs hl)
      (backward_loop_lem len d s (write mem (add64 d len) (mem (add64 s len))) (omega arith) hd hs
          (ground arith) x hx
        ∙ backward-step len d s mem hl hd hs h x hx)
  where
    rewind : (a n : ℕ) → IsWord a → IsWord (suc n) → add64 a (sub64 (suc n) 1) ≡ add64 a n
    rewind a n ha hn = omega arith

    back_one : (a n : ℕ) → IsWord a → IsWord (suc n) → sub64 (add64 a n) 1 ≡ add64 a (sub64 n 1)
    back_one a n ha hn = omega arith

-- The two orders of `memmove` suit every overlap: the first byte that is overwritten has been read.
pub move_lem :
    (mem : Memory) (d s len : ℕ)
    → IsWord len
    → IsWord d
    → IsWord s
    → d + len ≤ 2 ^ 64
    → s + len ≤ 2 ^ 64
    → (x : ℕ) → IsWord x
    → move d s len mem x ≡ copied mem d s len x
unfolding move
move_lem mem d s len hl hd hs fd fs x hx = elim (Bool-cases (ltb d s)) [
  | inl below ↦ rw below (forward_loop_lem len d s mem hl hd hs (ground arith) x hx)
  | inr above ↦ rw above (backward_loop_lem len d s mem hl hd hs (ground arith) x hx)
]

-- A copy upwards is right where the source does not begin below a destination that it overlaps.
pub forward_loop-copied :
    (mem : Memory) (d s len : ℕ)
    → IsWord len
    → IsWord d
    → IsWord s
    → d + len ≤ 2 ^ 64
    → s + len ≤ 2 ^ 64
    → (d ≤ s) ⊎ (s + len ≤ d)
    → (x : ℕ) → IsWord x
    → forward_loop len d s mem x ≡ copied mem d s len x
forward_loop-copied mem d s len hl hd hs fd fs h x hx =
    forward_loop_lem len d s mem hl hd hs (ground arith) x hx

-- `libgcc_memmove` returns its destination and copies `len` bytes, whatever the overlap, changing
-- no other byte, provided that pointers and length have 64 bits and both regions end within memory.
pub libgcc_memmove_lem :
    (dest src len : ℕ) (mem : Memory)
    → IsWord len
    → IsWord dest
    → IsWord src
    → dest + len ≤ 2 ^ 64
    → src + len ≤ 2 ^ 64
    → let r = libgcc_memmove dest src len mem in
      (r.0 ≡ dest) × ((x : ℕ) → IsWord x → r.1 x ≡ copied mem dest src len x)
unfolding libgcc_memmove
libgcc_memmove_lem dest src len mem hl hd hs fd fs =
    (refl, move_lem mem dest src len hl hd hs fd fs)

-- `libgcc_memcpy` returns its destination and copies `len` bytes, changing no other byte, provided
-- that pointers and length have 64 bits, both regions end within memory, and the destination does
-- not begin inside the source past its first byte.
pub libgcc_memcpy_lem :
    (dest src len : ℕ) (mem : Memory)
    → IsWord len
    → IsWord dest
    → IsWord src
    → dest + len ≤ 2 ^ 64
    → src + len ≤ 2 ^ 64
    → (dest ≤ src) ⊎ (src + len ≤ dest)
    → let r = libgcc_memcpy dest src len mem in
      (r.0 ≡ dest) × ((x : ℕ) → IsWord x → r.1 x ≡ copied mem dest src len x)
unfolding libgcc_memcpy
libgcc_memcpy_lem dest src len mem hl hd hs fd fs order =
    (refl, forward_loop-copied mem dest src len hl hd hs fd fs order)
