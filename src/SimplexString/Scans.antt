-- ===== src/SimplexString/Scans.antt =====
-- The loops of `memset`, `memcmp` and `memchr` against what they are to compute.
use simplex.Base.{
  ℕ, zero, suc, ◌%◌, ◌^◌, ◌<◌, ◌≡◌, ◌≢◌, inl, inr, refl, ap, ap₂, sym, ◌∙◌, arith, List, [], ◌∷◌,
  Bool-cases, ltb, ◌==◌, if◌then◌else◌, add64, sub64, IsWord,
}
use simplex.Machine.Bytes.{Memory}
use simplex.SimplexString.Libgcc.{
  ℤ, pos, negsuc, write, fill_loop, memcmp_loop, memchr_loop, libgcc_memset, libgcc_memcmp,
  libgcc_memchr,
}

pub fill_loop_lem :
    (len ptr val : ℕ) (mem : Memory)
    → IsWord len
    → IsWord ptr
    → (x : ℕ) → IsWord x
    → fill_loop len ptr val mem x ≡ (if ltb (sub64 x ptr) len then val % 2 ^ 8 else mem x)
unfolding fill_loop write
fill_loop_lem zero ptr val mem hl hp x hx = ground arith
fill_loop_lem (suc len) ptr val mem hl hp x hx = ground (
  arith,
  fill_loop_lem len (add64 ptr 1) val (write mem ptr (val % 2 ^ 8)) (omega arith) (omega arith) x
      hx,
)

-- `libgcc_memset` returns its destination, sets each of the `len` bytes from there to the low byte of
-- `val`, and changes no other byte. Lengths and pointers are 64-bit numbers; the region may wrap.
pub libgcc_memset_lem :
    (dest val len : ℕ) (mem : Memory)
    → IsWord len
    → IsWord dest
    → let r = libgcc_memset dest val len mem in
      (r.0 ≡ dest)
      × ((x : ℕ) → IsWord x → r.1 x ≡ (if ltb (sub64 x dest) len then val % 2 ^ 8 else mem x))
unfolding libgcc_memset
libgcc_memset_lem dest val len mem hl hd = (refl, fill_loop_lem len dest val mem hl hd)

-- The bytes of a region, in order.
unfoldable pub bytes_at : ℕ → ℕ → Memory → List ℕ
bytes_at zero a mem = []
bytes_at (suc count) a mem = mem a ∷ bytes_at count (add64 a 1) mem

-- The dictionary order.
unfoldable pub compare_bytes : List ℕ → List ℕ → ℤ
compare_bytes (b ∷ bs) (c ∷ cs) =
    let rest = compare_bytes bs cs in if ltb b c then negsuc 0 else if ltb c b then pos 1 else rest
compare_bytes _ _ = pos 0

pub memcmp_loop_lem :
    (count s1 s2 : ℕ) (mem : Memory)
    → IsWord s1
    → IsWord s2
    → memcmp_loop count s1 s2 mem ≡ compare_bytes (bytes_at count s1 mem) (bytes_at count s2 mem)
unfolding memcmp_loop compare_bytes bytes_at
memcmp_loop_lem zero s1 s2 mem h1 h2 = refl
memcmp_loop_lem (suc count) s1 s2 mem h1 h2 =
    rw
      (
        ← memcmp_loop_lem count (add64 s1 1) (add64 s2 1) mem (omega arith) (omega arith),
        back s1 h1,
        back s2 h2,
      )
      (ground arith)
  where
    back : (a : ℕ) → IsWord a → sub64 (add64 a 1) 1 ≡ a
    back a h = omega arith

-- `libgcc_memcmp` of two 64-bit pointers compares the two regions, byte by byte, in dictionary
-- order.
pub libgcc_memcmp_lem :
    (str1 str2 count : ℕ) (mem : Memory)
    → IsWord str1
    → IsWord str2
    → libgcc_memcmp str1 str2 count mem
      ≡ compare_bytes (bytes_at count str1 mem) (bytes_at count str2 mem)
unfolding libgcc_memcmp
libgcc_memcmp_lem str1 str2 count mem h1 h2 = memcmp_loop_lem count str1 str2 mem h1 h2

shift : (mem : Memory) (src i : ℕ) → mem (add64 (add64 src 1) i) ≡ mem (add64 src (suc i))
shift mem src i = ap mem (omega arith)

pub bytes_at-agree :
    (count a : ℕ) (mem mem' : Memory)
    → ((i : ℕ) → i < count → mem (add64 a i) ≡ mem' (add64 a i))
    → IsWord a
    → bytes_at count a mem ≡ bytes_at count a mem'
unfolding bytes_at
bytes_at-agree zero a mem mem' same h = refl
bytes_at-agree (suc count) a mem mem' same h =
    ap₂ ◌∷◌ (at_start mem ∙ same 0 (omega arith) ∙ sym (at_start mem')) (
      bytes_at-agree count (add64 a 1) mem mem'
        (λ i l. shift mem a i ∙ same (suc i) (omega arith) ∙ sym (shift mem' a i)) (omega arith))
  where
    at_start : (k : Memory) → k a ≡ k (add64 a 0)
    at_start k = ap k (omega arith)

-- Where the first byte equal to `c` is, among `length` bytes from `src`.
pub data FirstAt (src c : ℕ) (mem : Memory) : ℕ → ℕ → Type 0 where
  absent :
      (length : ℕ) → ((i : ℕ) → i < length → mem (add64 src i) ≢ c) → FirstAt src c mem length 0
  found :
      (length i r : ℕ)
      → i < length
      → r ≡ add64 src i
      → mem r ≡ c
      → ((j : ℕ) → j < i → mem (add64 src j) ≢ c)
      → FirstAt src c mem length r

none_up_to :
    (mem : Memory) {src c : ℕ}
    → IsWord src
    → mem src ≢ c
    → (n : ℕ) → ((i : ℕ) → i < n → mem (add64 (add64 src 1) i) ≢ c)
    → (i : ℕ) → i < suc n
    → mem (add64 src i) ≢ c
none_up_to mem {src} h other n none_of zero l e = other (ap mem (omega arith) ∙ e)
none_up_to mem {src} h other n none_of (suc i) l e = none_of i (omega arith) (shift mem src i ∙ e)

later :
    {src c : ℕ} {mem : Memory} {length r : ℕ}
    → IsWord src
    → mem src ≢ c
    → FirstAt (add64 src 1) c mem length r
    → FirstAt src c mem (suc length) r
later {src} {c} {mem} h other (absent length none_of) =
    absent (suc length) (none_up_to mem h other length none_of)
later {src} {c} {mem} h other (found length i r l e here before) =
    found (suc length) (suc i) r (omega arith) (omega arith) here (none_up_to mem h other i before)

pub memchr_loop_lem :
    (length src c : ℕ) (mem : Memory)
    → IsWord src
    → FirstAt src c mem length (memchr_loop length src c mem)
unfolding memchr_loop
memchr_loop_lem zero src c mem h = absent 0 (λ i l. absurd (omega arith))
memchr_loop_lem (suc length) src c mem h = elim (Bool-cases (mem src == c)) [
  | inl same ↦ rw same (
      found (suc length) 0 src (omega arith) (omega arith) (ground arith)
        (λ j l. absurd (omega arith)))
  | inr differs ↦
      rw differs (later h (ground arith) (memchr_loop_lem length (add64 src 1) c mem (omega arith)))
]

-- `libgcc_memchr` of a 64-bit pointer returns the address of the first of `length` bytes that
-- equals `c`, all of it, or 0 if there is none.
pub libgcc_memchr_lem :
    (src c length : ℕ) (mem : Memory)
    → IsWord src
    → FirstAt src c mem length (libgcc_memchr src c length mem)
unfolding libgcc_memchr
libgcc_memchr_lem src c length mem h = memchr_loop_lem length src c mem h

-- A search does not depend on memory elsewhere.
pub FirstAt-agree :
    {src c length r : ℕ} {mem : Memory} (mem' : Memory)
    → IsWord src
    → ((i : ℕ) → i < length → mem (add64 src i) ≡ mem' (add64 src i))
    → FirstAt src c mem length r
    → FirstAt src c mem' length r
FirstAt-agree mem' h same (absent length none_of) =
    absent length (λ i l e. none_of i l (same i l ∙ e))
FirstAt-agree {mem} mem' h same (found length i r l e here before) =
    found length i r l e (rw e (sym (same i l) ∙ rw (← e) here))
      (λ j k q. before j k (same j (omega arith) ∙ q))
