-- ===== src/Cpuid/Features.antt =====
-- The feature bits of simplex/include/cpuid.h, in its groups: which register of which level a bit
-- belongs to stands in the comment above the group.
use simplex.Base.{ℕ, ◌^◌}

-- `%ecx` and `%edx` of the basic features, those of levels 0x80000001 and 7, and the two lists of
-- level 13.
pub data Group : Type 0 where
  basic_ecx basic_edx extended_ecx extended_edx extended_ebx structured_ebx structured_ecx : Group
  structured_edx xfeature xstate : Group

pub data Feature : Type 0 where
  sse3 pclmul lzcnt ssse3 fma cmpxchg16b sse4_1 sse4_2 movbe popcnt aes xsave osxsave avx f16c :
      Feature
  rdrnd : Feature
  cmpxchg8b cmov mmx fxsave sse sse2 : Feature
  lahf_lm abm sse4a prfchw xop lwp fma4 tbm mwaitx : Feature
  mmxext lm threednowp threednow : Feature
  clzero : Feature
  fsgsbase sgx bmi hle avx2 bmi2 rtm mpx avx512f avx512dq rdseed adx avx512ifma clflushopt clwb :
      Feature
  avx512pf avx512er avx512cd sha avx512bw avx512vl : Feature
  prefetchwt1 avx512vbmi pku ospke avx512vpopcntdq rdpid : Feature
  avx5124vnniw avx5124fmaps : Feature
  bndregs bndcsr : Feature
  xsaveopt xsavec xsaves : Feature

-- The group that a bit is listed in.
unfoldable pub group : Feature → Group
group sse3 = basic_ecx
group pclmul = basic_ecx
group lzcnt = basic_ecx
group ssse3 = basic_ecx
group fma = basic_ecx
group cmpxchg16b = basic_ecx
group sse4_1 = basic_ecx
group sse4_2 = basic_ecx
group movbe = basic_ecx
group popcnt = basic_ecx
group aes = basic_ecx
group xsave = basic_ecx
group osxsave = basic_ecx
group avx = basic_ecx
group f16c = basic_ecx
group rdrnd = basic_ecx
group cmpxchg8b = basic_edx
group cmov = basic_edx
group mmx = basic_edx
group fxsave = basic_edx
group sse = basic_edx
group sse2 = basic_edx
group lahf_lm = extended_ecx
group abm = extended_ecx
group sse4a = extended_ecx
group prfchw = extended_ecx
group xop = extended_ecx
group lwp = extended_ecx
group fma4 = extended_ecx
group tbm = extended_ecx
group mwaitx = extended_ecx
group mmxext = extended_edx
group lm = extended_edx
group threednowp = extended_edx
group threednow = extended_edx
group clzero = extended_ebx
group fsgsbase = structured_ebx
group sgx = structured_ebx
group bmi = structured_ebx
group hle = structured_ebx
group avx2 = structured_ebx
group bmi2 = structured_ebx
group rtm = structured_ebx
group mpx = structured_ebx
group avx512f = structured_ebx
group avx512dq = structured_ebx
group rdseed = structured_ebx
group adx = structured_ebx
group avx512ifma = structured_ebx
group clflushopt = structured_ebx
group clwb = structured_ebx
group avx512pf = structured_ebx
group avx512er = structured_ebx
group avx512cd = structured_ebx
group sha = structured_ebx
group avx512bw = structured_ebx
group avx512vl = structured_ebx
group prefetchwt1 = structured_ecx
group avx512vbmi = structured_ecx
group pku = structured_ecx
group ospke = structured_ecx
group avx512vpopcntdq = structured_ecx
group rdpid = structured_ecx
group avx5124vnniw = structured_edx
group avx5124fmaps = structured_edx
group bndregs = xfeature
group bndcsr = xfeature
group xsaveopt = xstate
group xsavec = xstate
group xsaves = xstate

-- `bit_SSE3` and so on.
unfoldable pub mask : Feature → ℕ
mask sse3 = 2 ^ 0
mask pclmul = 2 ^ 1
mask lzcnt = 2 ^ 5
mask ssse3 = 2 ^ 9
mask fma = 2 ^ 12
mask cmpxchg16b = 2 ^ 13
mask sse4_1 = 2 ^ 19
mask sse4_2 = 2 ^ 20
mask movbe = 2 ^ 22
mask popcnt = 2 ^ 23
mask aes = 2 ^ 25
mask xsave = 2 ^ 26
mask osxsave = 2 ^ 27
mask avx = 2 ^ 28
mask f16c = 2 ^ 29
mask rdrnd = 2 ^ 30
mask cmpxchg8b = 2 ^ 8
mask cmov = 2 ^ 15
mask mmx = 2 ^ 23
mask fxsave = 2 ^ 24
mask sse = 2 ^ 25
mask sse2 = 2 ^ 26
mask lahf_lm = 2 ^ 0
mask abm = 2 ^ 5
mask sse4a = 2 ^ 6
mask prfchw = 2 ^ 8
mask xop = 2 ^ 11
mask lwp = 2 ^ 15
mask fma4 = 2 ^ 16
mask tbm = 2 ^ 21
mask mwaitx = 2 ^ 29
mask mmxext = 2 ^ 22
mask lm = 2 ^ 29
mask threednowp = 2 ^ 30
mask threednow = 2 ^ 31
mask clzero = 2 ^ 0
mask fsgsbase = 2 ^ 0
mask sgx = 2 ^ 2
mask bmi = 2 ^ 3
mask hle = 2 ^ 4
mask avx2 = 2 ^ 5
mask bmi2 = 2 ^ 8
mask rtm = 2 ^ 11
mask mpx = 2 ^ 14
mask avx512f = 2 ^ 16
mask avx512dq = 2 ^ 17
mask rdseed = 2 ^ 18
mask adx = 2 ^ 19
mask avx512ifma = 2 ^ 21
mask clflushopt = 2 ^ 23
mask clwb = 2 ^ 24
mask avx512pf = 2 ^ 26
mask avx512er = 2 ^ 27
mask avx512cd = 2 ^ 28
mask sha = 2 ^ 29
mask avx512bw = 2 ^ 30
mask avx512vl = 2 ^ 31
mask prefetchwt1 = 2 ^ 0
mask avx512vbmi = 2 ^ 1
mask pku = 2 ^ 3
mask ospke = 2 ^ 4
mask avx512vpopcntdq = 2 ^ 14
mask rdpid = 2 ^ 22
mask avx5124vnniw = 2 ^ 2
mask avx5124fmaps = 2 ^ 3
mask bndregs = 2 ^ 3
mask bndcsr = 2 ^ 4
mask xsaveopt = 2 ^ 0
mask xsavec = 2 ^ 1
mask xsaves = 2 ^ 3
