-- ===== src/Cpuid/Leaves.antt =====
-- Which levels the functions of simplex/include/cpuid.h answer for.
use simplex.Base.{
  ℕ, ◌^◌, ◌≤◌, ◌<◌, ◌≡◌, ◌≢◌, ◌↔◌, arith, false, some, bit_and-bit, bit_and, if◌then◌else◌, ltb,
}
use simplex.Cpuid.{Regs, Cpu, cpuid, lacks_cpuid, get_cpuid_max, get_cpuid_count}

-- The level at which the range of `leaf` begins: basic or extended.
abbrev pub range_of : ℕ → ℕ
range_of leaf = if ltb leaf (2 ^ 31) then 0 else 2 ^ 31

range_lem : (leaf : ℕ) → leaf < 2 ^ 32 → bit_and leaf 0x80000000 ≡ range_of leaf
range_lem leaf h = ground (arith, bit_and-bit 31 leaf)

-- `leaf` is in the range that the processor reports; a highest level of 0 counts as no answer.
abbrev pub IsAnswered : Cpu → ℕ → Type 0
IsAnswered cpu leaf =
    let top = (cpuid cpu (range_of leaf)).eax in
    (lacks_cpuid cpu.flags ≡ false) × (top ≢ 0) × (leaf ≤ top)

-- `__get_cpuid_count` of a 32-bit leaf answers exactly if there is CPUID and the highest level of the
-- leaf's own range is not 0 and not below the leaf, and then with what the instruction returns for the leaf
-- and subleaf.
pub get_cpuid_count_iff :
    (cpu : Cpu) (leaf subleaf : ℕ) (r : Regs)
    → leaf < 2 ^ 32
    → (get_cpuid_count cpu leaf subleaf ≡ some r)
      ↔ (IsAnswered cpu leaf × (r ≡ cpu.query leaf subleaf))
unfolding get_cpuid_count get_cpuid_max
get_cpuid_count_iff cpu leaf subleaf r h = rw (range_lem leaf h) (ground arith)
