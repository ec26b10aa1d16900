-- ===== src/Cpuid/Names.antt =====
-- The table of feature bits read backwards, from a group and a bit to the name.
use simplex.Base.{
  ℕ, ◌^◌, ◌-◌, ◌<◌, ◌≤◌, ◌≡◌, ◌↔◌, bit_and, refl, ap, sym, ◌∙◌, arith, true, Option, none, some,
  List, [], ◌∷◌, ◌==◌, ◌&&◌, if◌then◌else◌, inl, inr, Bool-cases, ap₂,
}
use simplex.Cpuid.Features.{
  Group, basic_ecx, basic_edx, extended_ecx, extended_edx, extended_ebx, structured_ebx,
  structured_ecx, structured_edx, xfeature, xstate, Feature, group, mask, sse3, pclmul, lzcnt,
  ssse3, fma, cmpxchg16b, sse4_1, sse4_2, movbe, popcnt, aes, xsave, osxsave, avx, f16c, rdrnd,
  cmpxchg8b, cmov, mmx, fxsave, sse, sse2, lahf_lm, abm, sse4a, prfchw, xop, lwp, fma4, tbm, mwaitx,
  mmxext, lm, threednowp, threednow, clzero, fsgsbase, sgx, bmi, hle, avx2, bmi2, rtm, mpx, avx512f,
  avx512dq, rdseed, adx, avx512ifma, clflushopt, clwb, avx512pf, avx512er, avx512cd, sha, avx512bw,
  avx512vl, prefetchwt1, avx512vbmi, pku, ospke, avx512vpopcntdq, rdpid, avx5124vnniw, avx5124fmaps,
  bndregs, bndcsr, xsaveopt, xsavec, xsaves,
}

abbrev number : Group → ℕ
number basic_ecx = 0
number basic_edx = 1
number extended_ecx = 2
number extended_edx = 3
number extended_ebx = 4
number structured_ebx = 5
number structured_ecx = 6
number structured_edx = 7
number xfeature = 8
number xstate = 9

-- The bits in the order of the header.
abbrev features : List Feature
features =
    sse3 ∷ pclmul ∷ lzcnt ∷ ssse3 ∷ fma ∷ cmpxchg16b ∷ sse4_1 ∷ sse4_2 ∷ movbe ∷ popcnt ∷ aes
    ∷ xsave ∷ osxsave ∷ avx ∷ f16c ∷ rdrnd ∷ cmpxchg8b ∷ cmov ∷ mmx ∷ fxsave ∷ sse ∷ sse2 ∷ lahf_lm
    ∷ abm ∷ sse4a ∷ prfchw ∷ xop ∷ lwp ∷ fma4 ∷ tbm ∷ mwaitx ∷ mmxext ∷ lm ∷ threednowp ∷ threednow
    ∷ clzero ∷ fsgsbase ∷ sgx ∷ bmi ∷ hle ∷ avx2 ∷ bmi2 ∷ rtm ∷ mpx ∷ avx512f ∷ avx512dq ∷ rdseed
    ∷ adx ∷ avx512ifma ∷ clflushopt ∷ clwb ∷ avx512pf ∷ avx512er ∷ avx512cd ∷ sha ∷ avx512bw
    ∷ avx512vl ∷ prefetchwt1 ∷ avx512vbmi ∷ pku ∷ ospke ∷ avx512vpopcntdq ∷ rdpid ∷ avx5124vnniw
    ∷ avx5124fmaps ∷ bndregs ∷ bndcsr ∷ xsaveopt ∷ xsavec ∷ xsaves ∷ []

-- The feature with this bit in this group.
abbrev find : List Feature → Group → ℕ → Option Feature
find [] g bits = none
find (f ∷ rest) g bits =
    let later = find rest g bits in
    if number (group f) == number g && mask f == bits then some f else later

unfoldable pub named : Group → ℕ → Option Feature
named g bits = find features g bits

named-group-mask : (f : Feature) → named (group f) (mask f) ≡ some f
unfolding named group mask
named-group-mask sse3 = refl
named-group-mask _ = refl

of_number : ℕ → Group
of_number n =
    if n == 0
    then basic_ecx
    else if n == 1
    then basic_edx
    else if n == 2
    then extended_ecx
    else if n == 3
    then extended_edx
    else if n == 4
    then extended_ebx
    else if n == 5
    then structured_ebx
    else if n == 6
    then structured_ecx
    else if n == 7
    then structured_edx
    else if n == 8
    then xfeature
    else xstate

number_section : (g : Group) → of_number (number g) ≡ g
unfolding of_number
number_section basic_ecx = refl
number_section _ = refl

number_back : (g h : Group) → number g ≡ number h → g ≡ h
number_back g h e = sym (number_section g) ∙ ap of_number e ∙ number_section h

both : (a b c d : ℕ) → (a == b && c == d) ≡ true → (a ≡ b) × (c ≡ d)
both a b c d h = ground arith

find_sound :
    (fs : List Feature) (g : Group) (bits : ℕ) (f : Feature)
    → find fs g bits ≡ some f
    → (number (group f) ≡ number g) × (mask f ≡ bits)
find_sound [] g bits f h = cc
find_sound (e ∷ rest) g bits f h =
    elim (Bool-cases (number (group e) == number g && mask e == bits)) [
      | inl here ↦
          let same : e ≡ f = ap (or_else e) (rw here at h) in
          let parts = both (number (group e)) (number g) (mask e) bits here in
          (ap (λ k. number (group k)) (sym same) ∙ parts.0, ap mask (sym same) ∙ parts.1)
      | inr further ↦ find_sound rest g bits f (rw further at h)
    ]
  where
    or_else : Feature → Option Feature → Feature
    or_else k none = k
    or_else k (some l) = l

-- A group and a word of bits name a feature exactly if it is listed in that group with those bits: so no
-- two features of one group have the same bit.
named_iff :
    (g : Group) (bits : ℕ) (f : Feature)
    → (named g bits ≡ some f) ↔ ((group f ≡ g) × (mask f ≡ bits))
unfolding named
named_iff g bits f = (
  λ h. let r = find_sound features g bits f h in (number_back (group f) g r.0, r.1),
  λ h. sym (ap₂ named h.0 h.1) ∙ named-group-mask f,
)

-- Every feature is one bit of a 32-bit register.
mask_bounds : (f : Feature) → (mask f < 2 ^ 32) × (1 ≤ mask f) × (bit_and (mask f) (mask f - 1) ≡ 0)
unfolding mask
mask_bounds sse3 = (omega arith, omega arith, refl)
mask_bounds _ = (omega arith, omega arith, refl)
