-- ===== src/SimplexString/Footprint.antt =====
-- Where the loops of simplex/eval/benchmark/simplex_string.cpp write.
use simplex.Base.{
  ℕ, zero, suc, ◌≤◌, ◌≡◌, refl, arith, ltb, add64, sub64, IsWord, ◌∙◌, inl, inr, Bool-cases,
}
use simplex.Machine.Bytes.{Memory}
use simplex.SimplexString.Libgcc.{write, forward_loop, backward_loop, move, fill_loop}

write-outside :
    (mem : Memory) (a v x : ℕ) → IsWord x → IsWord a → 1 ≤ sub64 x a → write mem a v x ≡ mem x
unfolding write
write-outside mem a v x hx ha h = ground arith

-- `x` is not among the `len` bytes from `d`.
pub forward_loop-outside :
    (len d s : ℕ) (mem : Memory) (x : ℕ)
    → IsWord d
    → IsWord x
    → len ≤ sub64 x d
    → forward_loop len d s mem x ≡ mem x
unfolding forward_loop
forward_loop-outside zero d s mem x hd hx h = refl
forward_loop-outside (suc len) d s mem x hd hx h =
    forward_loop-outside len (add64 d 1) (add64 s 1) (write mem d (mem s)) x (omega arith) hx
      (omega arith)
    ∙ write-outside mem d (mem s) x hx hd (omega arith)

pub fill_loop-outside :
    (len ptr val : ℕ) (mem : Memory) (x : ℕ)
    → IsWord ptr
    → IsWord x
    → len ≤ sub64 x ptr
    → fill_loop len ptr val mem x ≡ mem x
unfolding fill_loop
fill_loop-outside zero ptr val mem x hp hx h = refl
fill_loop-outside (suc len) ptr val mem x hp hx h =
    fill_loop-outside len (add64 ptr 1) val (write mem ptr _) x (omega arith) hx (omega arith)
    ∙ write-outside mem ptr _ x hx hp (omega arith)

-- `x` is not among the `len` bytes that end at `lastd`.
backward_loop-outside :
    (len lastd lasts : ℕ) (mem : Memory) (x : ℕ)
    → IsWord lastd
    → IsWord x
    → len ≤ sub64 lastd x
    → backward_loop len lastd lasts mem x ≡ mem x
unfolding backward_loop
backward_loop-outside zero lastd lasts mem x hl hx h = refl
backward_loop-outside (suc len) lastd lasts mem x hl hx h =
    backward_loop-outside len (sub64 lastd 1) (sub64 lasts 1) (write mem lastd (mem lasts)) x
      (omega arith) hx (omega arith)
    ∙ write-outside mem lastd (mem lasts) x hx hl (omega arith)

last_outside :
    (len d x : ℕ)
    → IsWord d
    → IsWord x
    → suc len ≤ sub64 x d
    → suc len ≤ sub64 (add64 d (sub64 (suc len) 1)) x
last_outside len d x hd hx h = omega arith

pub move-outside :
    (len d s : ℕ) (mem : Memory) (x : ℕ)
    → IsWord d
    → IsWord x
    → len ≤ sub64 x d
    → move d s len mem x ≡ mem x
unfolding move forward_loop backward_loop
move-outside zero d s mem x hd hx h = ground arith
move-outside (suc len) d s mem x hd hx h = elim (Bool-cases (ltb d s)) [
  | inl below ↦ rw below (forward_loop-outside (suc len) d s mem x hd hx h)
  | inr above ↦ rw above (
      backward_loop-outside (suc len) (add64 d (sub64 (suc len) 1)) (add64 s (sub64 (suc len) 1))
        mem x (omega arith) hx (last_outside len d x hd hx h))
]
