-- ===== src/Cpuid/Vendor.antt =====
-- The vendor signatures of simplex/include/cpuid.h, as `cpuid` with level 0 returns them.
use simplex.Base.{ℕ}

pub data Vendor : Type 0 where
  amd centaur cyrix intel tm1 tm2 nsc nexgen rise sis umc via vortex : Vendor

pub record Signature : Type 0 where
  pub ebx : ℕ
  pub ecx : ℕ
  pub edx : ℕ

abbrev sig : ℕ → ℕ → ℕ → Signature
sig b c d = record { ebx = b; ecx = c; edx = d }

unfoldable pub signature : Vendor → Signature
signature amd = sig 0x68747541 0x444d4163 0x69746e65
signature centaur = sig 0x746e6543 0x736c7561 0x48727561
signature cyrix = sig 0x69727943 0x64616574 0x736e4978
signature intel = sig 0x756e6547 0x6c65746e 0x49656e69
signature tm1 = sig 0x6e617254 0x55504361 0x74656d73
signature tm2 = sig 0x756e6547 0x3638784d 0x54656e69
signature nsc = sig 0x646f6547 0x43534e20 0x79622065
signature nexgen = sig 0x4778654e 0x6e657669 0x72446e65
signature rise = sig 0x65736952 0x65736952 0x65736952
signature sis = sig 0x20536953 0x20536953 0x20536953
signature umc = sig 0x20434d55 0x20434d55 0x20434d55
signature via = sig 0x20414956 0x20414956 0x20414956
signature vortex = sig 0x74726f56 0x436f5320 0x36387865
