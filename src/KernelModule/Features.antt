-- ===== src/KernelModule/Features.antt =====
-- The feature bits of simplex/eval/kmod/simplexkm.h.
use simplex.Base.{ℕ, ◌^◌}
use simplex.Cpuid.Features.{
  Feature, sse3, pclmul, lzcnt, ssse3, fma, cmpxchg16b, sse4_1, sse4_2, movbe, popcnt, aes, xsave,
  osxsave, avx, f16c, rdrnd, cmpxchg8b, cmov, mmx, fxsave, sse, sse2, lahf_lm, abm, sse4a, prfchw,
  xop, lwp, fma4, tbm, mwaitx, mmxext, lm, threednowp, threednow, clzero, fsgsbase, sgx, bmi, hle,
  avx2, bmi2, rtm, mpx, avx512f, avx512dq, rdseed, adx, avx512ifma, clflushopt, clwb, avx512pf,
  avx512er, avx512cd, sha, avx512bw, avx512vl, prefetchwt1, avx512vbmi, pku, ospke, avx512vpopcntdq,
  rdpid, avx5124vnniw, avx5124fmaps, bndregs, bndcsr, xsaveopt, xsavec, xsaves,
}

-- `bit_SSE3` and so on.
unfoldable pub mask : Feature → ℕ
mask sse3 = 2 ^ 0
mask pclmul = 2 ^ 1
mask lzcnt = 2 ^ 5
mask ssse3 = 2 ^ 9
mask fma = 2 ^ 12
mask cmpxchg16b = 2 ^ 13
mask sse4_1 = 2 ^ 19
mask sse4_2 = 2 ^ 20
mask movbe = 2 ^ 22
mask popcnt = 2 ^ 23
mask aes = 2 ^ 25
mask xsave = 2 ^ 26
mask osxsave = 2 ^ 27
mask avx = 2 ^ 28
mask f16c = 2 ^ 29
mask rdrnd = 2 ^ 30
mask cmpxchg8b = 2 ^ 8
mask cmov = 2 ^ 15
mask mmx = 2 ^ 23
mask fxsave = 2 ^ 24
mask sse = 2 ^ 25
mask sse2 = 2 ^ 26
mask lahf_lm = 2 ^ 0
mask abm = 2 ^ 5
mask sse4a = 2 ^ 6
mask prfchw = 2 ^ 8
mask xop = 2 ^ 11
mask lwp = 2 ^ 15
mask fma4 = 2 ^ 16
mask tbm = 2 ^ 21
mask mwaitx = 2 ^ 29
mask mmxext = 2 ^ 22
mask lm = 2 ^ 29
mask threednowp = 2 ^ 30
mask threednow = 2 ^ 31
mask clzero = 2 ^ 0
mask fsgsbase = 2 ^ 0
mask sgx = 2 ^ 2
mask bmi = 2 ^ 3
mask hle = 2 ^ 4
mask avx2 = 2 ^ 5
mask bmi2 = 2 ^ 8
mask rtm = 2 ^ 11
mask mpx = 2 ^ 14
mask avx512f = 2 ^ 16
mask avx512dq = 2 ^ 17
mask rdseed = 2 ^ 18
mask adx = 2 ^ 19
mask avx512ifma = 2 ^ 21
mask clflushopt = 2 ^ 23
mask clwb = 2 ^ 24
mask avx512pf = 2 ^ 26
mask avx512er = 2 ^ 27
mask avx512cd = 2 ^ 28
mask sha = 2 ^ 29
mask avx512bw = 2 ^ 30
mask avx512vl = 2 ^ 31
mask prefetchwt1 = 2 ^ 0
mask avx512vbmi = 2 ^ 1
mask pku = 2 ^ 3
mask ospke = 2 ^ 4
mask avx512vpopcntdq = 2 ^ 14
mask rdpid = 2 ^ 22
mask avx5124vnniw = 2 ^ 2
mask avx5124fmaps = 2 ^ 3
mask bndregs = 2 ^ 3
mask bndcsr = 2 ^ 4
mask xsaveopt = 2 ^ 0
mask xsavec = 2 ^ 1
mask xsaves = 2 ^ 3
